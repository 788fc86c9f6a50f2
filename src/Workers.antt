-- ===== src/Workers.antt =====
-- internal/workers: the background jobs that keep remote accounts and the index up to date.
pub mod Account
pub mod SyncTable
pub mod Refresh
pub mod Sync
pub mod Download
pub mod Examples
pub mod Share
pub mod Upload
