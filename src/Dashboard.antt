-- ===== src/Dashboard.antt =====
-- What an owner is told about a period (backend/src/features/dashboard).
pub mod Score
mod Tests
