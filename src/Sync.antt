-- ===== src/Sync.antt =====
-- How a device's database and the server's are kept the same.
pub mod Cursor
pub mod Paging
mod Tests
pub mod Timeline
pub mod Pull
pub mod Push
