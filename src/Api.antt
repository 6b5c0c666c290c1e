-- ===== src/Api.antt =====
-- The data structures of the API, pkg/api.
pub mod Community
pub mod BgpCommunities
pub mod Filters
pub mod Neighbor
pub mod Route
