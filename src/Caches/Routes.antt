-- ===== src/Caches/Routes.antt =====
-- pkg/caches/routes.go and pkg/caches/lru.go: responses by neighbor id, with the instant of the last
-- access. The mutex makes each call one step; the clock is an argument.
pub mod Recency
pub mod Eviction
pub mod Contents
pub mod Expiry
use alice_lg.Common.{
  ℕ, ◌+◌, Bool, true, false, Option, none, some, List, [], ◌∷◌, length, nat_eq, list_eq,
  if◌then◌else◌,
}
use alice_lg.Common.Assoc
use alice_lg.Common.Assoc.{Assoc, put, delete}
use alice_lg.Common.Ints.{ℤ, pos, ltb_ℤ}
use alice_lg.Common.Texts.{Text}
use alice_lg.Caches.Neighbors.{Response, expired}

-- RoutesCache
pub record RoutesCache (A : Type 0) : Type 0 where
  pub responses : Assoc Text (Response A)
  pub accessed_at : Assoc Text ℤ
  pub disabled : Bool
  pub size : ℤ

-- The loop of `LRUMap.LRU`, with the earliest access so far and its key
unfoldable pub lru_from : ℤ → Text → Assoc Text ℤ → Text
lru_from t key [] = key
lru_from t key ((k, v) ∷ m) = lru_from (if ltb_ℤ v t then v else t) (if ltb_ℤ v t then k else key) m

-- LRUMap.LRU
unfoldable pub lru : ℤ → Assoc Text ℤ → Text
unfolding lru_from
lru now m = lru_from now [] m

module _ {A : Type 0} where
  -- NewRoutesCache
  unfoldable pub new_routes_cache : Bool → ℤ → RoutesCache A
  new_routes_cache disabled size = record {
    responses = [];
    accessed_at = [];
    disabled = disabled;
    size = size;
  }

  -- RoutesCache.Get
  unfoldable pub get : RoutesCache A → Text → ℤ → RoutesCache A × Option (Response A)
  unfolding Assoc.get put
  get cache neighbor_id now =
      if cache.disabled then (cache, none) else elim (Assoc.get neighbor_id cache.responses) [
        | none ↦ (cache, none)
        | some response ↦ if expired response now then (cache, none) else (
          record cache { accessed_at = put neighbor_id now cache.accessed_at },
          some response,
        )
      ]

  -- The eviction in `RoutesCache.Set`
  unfoldable pub make_room : RoutesCache A → ℤ → RoutesCache A
  unfolding lru delete
  make_room cache now =
      if ltb_ℤ cache.size (pos (length cache.responses))
      then record cache {
        accessed_at = delete (lru now cache.accessed_at) cache.accessed_at;
        responses = delete (lru now cache.accessed_at) cache.responses;
      }
      else cache

  -- RoutesCache.Set
  unfoldable pub set : RoutesCache A → Text → Response A → ℤ → RoutesCache A
  unfolding make_room put
  set cache neighbor_id response now =
      if cache.disabled
      then cache
      else let room = make_room cache now in
        record room {
          accessed_at = put neighbor_id now room.accessed_at;
          responses = put neighbor_id response room.responses;
        }

  -- The first loop of `RoutesCache.Expire`
  unfoldable pub expired_keys : Assoc Text (Response A) → ℤ → List Text
  expired_keys [] now = []
  expired_keys ((k, r) ∷ m) now =
      let rest = expired_keys m now in if expired r now then k ∷ rest else rest

  -- The second loop
  unfoldable pub delete_all : List Text → Assoc Text (Response A) → Assoc Text (Response A)
  unfolding delete
  delete_all [] m = m
  delete_all (k ∷ keys) m = delete_all keys (delete k m)

  -- RoutesCache.Expire: the access times stay.
  unfoldable pub expire : RoutesCache A → ℤ → RoutesCache A × ℕ
  unfolding expired_keys delete_all
  expire cache now =
      let keys = expired_keys cache.responses now in
      (record cache { responses = delete_all keys cache.responses }, length keys)
