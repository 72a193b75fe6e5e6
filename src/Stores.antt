-- ===== src/Stores.antt =====
-- Which store a request may touch (backend/src/features/stores, with the extractors of
-- backend/src/features/access/current_actor.rs), and how a store is opened and changed.
pub mod Scope
pub mod Handlers
mod Tests
