-- ===== src/Ledger.antt =====
-- The stock ledger: products, stock movements, sales and sale lines, as the repositories of
-- inventory and sales change them.
pub mod Tables
pub mod Movements
pub mod Rows
pub mod Sales
mod Tests
