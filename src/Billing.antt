-- ===== src/Billing.antt =====
-- Plans, the standing of an account, payments, and the checks that a plan puts on requests.
pub mod Plan
pub mod Standing
pub mod Extension
pub mod Payments
pub mod Gate
pub mod Checkout
mod Tests
