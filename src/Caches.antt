-- ===== src/Caches.antt =====
-- The caches of responses, pkg/caches.
pub mod Neighbors
pub mod Routes
