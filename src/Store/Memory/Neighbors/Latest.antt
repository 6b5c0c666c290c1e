-- ===== src/Store/Memory/Neighbors/Latest.antt =====
-- What is read back after neighbors are set.
use alice_lg.Common.{
  ◌≡◌, refl, ◌∙◌, Option, some, none, List, [], ◌∷◌, list_beq, list_beq_iff, nat_eq, list_eq,
  if◌then◌else◌, ◌>>=◌, arith, Bool-cases, inl, inr,
}
use alice_lg.Common.Assoc.{get, put, get-put, get-put_self}
use alice_lg.Common.Texts.{Text}
use alice_lg.Api.Neighbor.{Neighbor}
use alice_lg.Store.Memory.Neighbors.{
  NeighborIndex, NeighborsBackend, index_neighbors, set_neighbors, copy, get_neighbors_map_at,
}

-- The first of two that is there
abbrev pub or_else : Option Neighbor → Option Neighbor → Option Neighbor
or_else none o = o
or_else (some n) o = some n

-- The last neighbor of a list with an id
unfoldable pub last_with : Text → List Neighbor → Option Neighbor
last_with id [] = none
last_with id (n ∷ ns) = or_else (last_with id ns) (if list_beq n.id id then some n else none)

-- No key has two entries.
abbrev Unique : NeighborIndex → Type 0
Unique [] = Unit
Unique ((k, n) ∷ m) = (get k m ≡ none) × Unique m

put-Unique : (k : Text) (n : Neighbor) (m : NeighborIndex) → Unique m → Unique (put k n m)
unfolding put get
put-Unique k n [] u = (refl, tt)
put-Unique k n ((j, o) ∷ m) u = elim (Bool-cases (list_beq j k)) [
  | inl same ↦ rw same (ground (arith, list_beq_iff j k, u.0), u.1)
  | inr other ↦ rw other (
    ground (arith, get-put k j n m, list_beq_iff j k, list_beq_iff k j, u.0),
    put-Unique k n m u.1,
  )
]

index_neighbors-Unique :
    (ns : List Neighbor) (m : NeighborIndex) → Unique m → Unique (index_neighbors ns m)
unfolding index_neighbors
index_neighbors-Unique [] m u = u
index_neighbors-Unique (n ∷ ns) m u =
    index_neighbors-Unique ns (put n.id n m) (put-Unique n.id n m u)

get-index_neighbors :
    (k : Text) (ns : List Neighbor) (m : NeighborIndex)
    → get k (index_neighbors ns m) ≡ or_else (last_with k ns) (get k m)
unfolding index_neighbors last_with
get-index_neighbors k [] m = refl
get-index_neighbors k (n ∷ ns) m =
    get-index_neighbors k ns (put n.id n m) ∙ ground (arith, get-put n.id k n m)

get-copy :
    (k : Text) (r m : NeighborIndex) → Unique m → get k (copy r m) ≡ or_else (get k m) (get k r)
unfolding copy get
get-copy k r [] u = refl
get-copy k r ((j, n) ∷ m) u =
    get-copy k (put j n r) m u.1 ∙ ground (arith, get-put j k n r, list_beq_iff j k, u.0)

or_else-none : (o : Option Neighbor) → or_else (or_else o none) none ≡ o
or_else-none none = refl
or_else-none (some n) = refl

-- After the neighbors of a source are set, a read of it gives a map with exactly the last neighbor
-- of each id; for every other source it gives what it gave before.
pub get_neighbors_map_at-set_neighbors :
    (b : NeighborsBackend) (id : Text) (ns : List Neighbor)
    → ((m : NeighborIndex) × (get_neighbors_map_at (set_neighbors b id ns) id ≡ some m)
        × ((k : Text) → get k m ≡ last_with k ns))
      × ((other : Text)
          → get_neighbors_map_at (set_neighbors b id ns) other ≡ (
              if list_beq id other
              then get_neighbors_map_at (set_neighbors b id ns) id
              else get_neighbors_map_at b other))
unfolding get_neighbors_map_at set_neighbors
get_neighbors_map_at-set_neighbors b id ns = (
  (
    copy [] (index_neighbors ns []),
    rw (get-put_self id (index_neighbors ns []) b) refl,
    λ k.
        get-copy k [] (index_neighbors ns []) (index_neighbors-Unique ns [] tt)
        ∙ rw (get-index_neighbors k ns []) (or_else-none (last_with k ns)),
  ),
  λ other.
      rw (get-put id other (index_neighbors ns []) b, get-put_self id (index_neighbors ns []) b)
        (either_way other),
)
  where
    either_way :
        (other : Text)
        → ((if list_beq id other then some (index_neighbors ns []) else get other b) >>= λ idx.
            some (copy [] idx))
          ≡ (if list_beq id other
              then some (copy [] (index_neighbors ns []))
              else get_neighbors_map_at b other)
    either_way other = elim (Bool-cases (list_beq id other)) [
      | inl same ↦ rw same refl
      | inr differ ↦ rw differ refl
    ]
