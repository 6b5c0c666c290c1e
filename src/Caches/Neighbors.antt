-- ===== src/Caches/Neighbors.antt =====
-- pkg/caches/neighbors.go. A response is known by the instant until which it is valid (`Meta.TTL`)
-- and its content; the clock is an argument.
use alice_lg.Common.{Bool, Option, none, some, if◌then◌else◌, ◌≡◌, arith}
use alice_lg.Common.Ints.{ℤ, ltb_ℤ}

-- What the caches use of a response
pub record Response {ℓ} (A : Type ℓ) : Type ℓ where
  pub ttl : ℤ
  pub content : A

-- CacheTTL() < 0
abbrev pub expired {ℓ} : {A : Type ℓ} → Response A → ℤ → Bool
expired r now = ltb_ℤ r.ttl now

-- NeighborsCache
pub record NeighborsCache {ℓ} (A : Type ℓ) : Type ℓ where
  pub response : Option (Response A)
  pub disabled : Bool

module _ {ℓ} {A : Type ℓ} where
  -- NewNeighborsCache
  unfoldable pub new_neighbors_cache : Bool → NeighborsCache A
  new_neighbors_cache disabled = record { response = none; disabled = disabled }

  -- NeighborsCache.Get
  unfoldable pub get : NeighborsCache A → ℤ → Option (Response A)
  get cache now =
      if cache.disabled
      then none
      else elim cache.response [ none ↦ none | some r ↦ if expired r now then none else some r ]

  -- NeighborsCache.Set
  unfoldable pub set : NeighborsCache A → Response A → NeighborsCache A
  set cache response = if cache.disabled then cache else record cache { response = some response }

module _ {A : Type 0} where
  -- After a write the cache returns the written response as long as it is valid, and nothing
  -- otherwise or if the cache is disabled.
  pub get-set :
      (cache : NeighborsCache A) (r : Response A) (now : ℤ)
      → get (set cache r) now
        ≡ (if cache.disabled then none else if expired r now then none else some r)
  unfolding get set
  get-set cache r now = ground arith
