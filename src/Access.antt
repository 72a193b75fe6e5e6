-- ===== src/Access.antt =====
-- Who may do what.
pub mod Permission
pub mod Actor
pub mod Sessions
mod Tests
