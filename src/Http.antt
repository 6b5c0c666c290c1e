-- ===== src/Http.antt =====
-- The HTTP API, pkg/http.
pub mod Pagination
pub mod Query
pub mod Errors
pub mod Routes
pub mod Search
