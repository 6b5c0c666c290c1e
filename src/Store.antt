-- ===== src/Store.antt =====
-- The stores, pkg/store, with the in-memory backends.
pub mod Sources
pub mod Status
pub mod Memory
pub mod Neighbors
pub mod Routes
