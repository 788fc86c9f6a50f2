-- ===== src/Form.antt =====
-- internal/form: search forms and their textual queries.
pub mod Value
pub mod Serialize
pub mod Parse
pub mod Clean
pub mod Searches
pub mod FreeText
pub mod Errors
pub mod RoundTrip
