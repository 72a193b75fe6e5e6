-- ===== src/Privacy.antt =====
-- What an owner has agreed to, the deletion of an account, and how long its records are kept
-- (backend/src/features/privacy).
pub mod Consents
pub mod Deletion
pub mod Retention
mod Tests
