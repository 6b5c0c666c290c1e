-- ===== src/Tests.antt =====
-- The theorems at concrete inputs.
mod Pools
mod Stores
mod Api
mod Http
mod Caches
mod Refreshes
mod Sources
mod Birds
mod Handlers
mod Config
