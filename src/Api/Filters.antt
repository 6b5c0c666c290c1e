-- ===== src/Api/Filters.antt =====
-- pkg/api/search_filters.go: filter values, groups of filters, and their collection.
pub mod Match
pub mod Combine
pub mod Collection
pub mod Kinds
pub mod Conjunction
pub mod Value
pub mod Group
pub mod Index
pub mod Count
pub mod Query
pub mod Six
