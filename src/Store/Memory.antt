-- ===== src/Store/Memory.antt =====
-- pkg/store/backends/memory. A `sync.Map` is a map whose calls are single steps; an iteration
-- visits its entries in the order of the list.
pub mod Routes
pub mod Neighbors
