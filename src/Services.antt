-- ===== src/Services.antt =====
-- The services between the routes and the tables: what a request is checked for, how its figures
-- are computed, and what is announced once the tables have changed.
pub mod Request
pub mod Selling
mod Tests
pub mod Catalogue
pub mod Stockroom
pub mod Cashbook
