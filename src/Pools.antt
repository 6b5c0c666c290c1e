-- ===== src/Pools.antt =====
-- The pools that deduplicate values, pkg/pools. The mutex of a pool makes each call one step.
pub mod Node
pub mod Lists
pub mod Strings
