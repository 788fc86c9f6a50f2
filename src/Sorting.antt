-- ===== src/Sorting.antt =====
-- Go's package `sort`, which the program calls with a `Less` of its own. How it orders elements that
-- `Less` does not tell apart is not documented, so a sort is a parameter with what is documented.
mod Defs
pub mod Insertion
pub use Defs.*
