-- ===== src/Auth.antt =====
-- Who is signed in: owners, staff, their devices and tokens (backend/src/features/authentication,
-- staff and devices).
pub mod Tables
pub mod Devices
pub mod Staff
pub mod Directory
pub mod Service
pub mod History
pub mod JoinCode
pub mod RateLimiter
pub mod Staffing
pub mod Entry
pub mod Codes
mod Tests
