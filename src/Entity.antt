-- ===== src/Entity.antt =====
-- internal/entity: the rows of the index and their rules. Rows are records; what the database does
-- with them is part of the models that call it.
pub mod Source
pub mod Place
pub mod Geo
pub mod Camera
pub mod Tables
pub mod Label
pub mod Keyword
pub mod Photo
