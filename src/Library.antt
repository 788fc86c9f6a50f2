-- ===== src/Library.antt =====
-- internal/photoprism: the jobs that keep the index and the files together.
pub mod Purge
pub mod Import
pub mod Walk
pub mod Index
