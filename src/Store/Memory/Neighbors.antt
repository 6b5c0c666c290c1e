-- ===== src/Store/Memory/Neighbors.antt =====
-- pkg/store/backends/memory/neighbors_backend.go. `none` is ErrSourceNotFound.
pub mod Latest
use alice_lg.Common.{ℕ, Option, some, List, [], ◌∷◌, length, map, nat_eq, list_eq, ◌>>=◌}
use alice_lg.Common.Assoc.{Assoc, get, put}
use alice_lg.Common.Texts.{Text}
use alice_lg.Api.Neighbor.{Neighbor}

-- NeighborIndex
abbrev pub NeighborIndex : Type 0
NeighborIndex = Assoc Text Neighbor

-- NeighborsBackend
abbrev pub NeighborsBackend : Type 0
NeighborsBackend = Assoc Text NeighborIndex

-- The loop of `SetNeighbors`
unfoldable pub index_neighbors : List Neighbor → NeighborIndex → NeighborIndex
unfolding put
index_neighbors [] idx = idx
index_neighbors (n ∷ neighbors) idx = index_neighbors neighbors (put n.id n idx)

-- SetNeighbors
unfoldable pub set_neighbors : NeighborsBackend → Text → List Neighbor → NeighborsBackend
unfolding index_neighbors put
set_neighbors b source_id neighbors = put source_id (index_neighbors neighbors []) b

-- GetNeighborsAt
unfoldable pub get_neighbors_at : NeighborsBackend → Text → Option (List Neighbor)
unfolding get
get_neighbors_at b source_id = do
  idx ← get source_id b
  some (map (λ (e : Text × Neighbor). e.1) idx)

-- maps.Copy
unfoldable pub copy : NeighborIndex → NeighborIndex → NeighborIndex
unfolding put
copy result [] = result
copy result ((k, n) ∷ idx) = copy (put k n result) idx

-- GetNeighborsMapAt
unfoldable pub get_neighbors_map_at : NeighborsBackend → Text → Option NeighborIndex
unfolding get copy
get_neighbors_map_at b source_id = do idx ← get source_id b; some (copy [] idx)

-- CountNeighborsAt
unfoldable pub count_neighbors_at : NeighborsBackend → Text → Option ℕ
unfolding get_neighbors_at
count_neighbors_at b source_id = do
  neighbors ← get_neighbors_at b source_id
  some (length neighbors)
