-- ===== src/Store/Routes/Pooled.antt =====
-- The ids of the stored routes stay in the pools.
use alice_lg.Common.{
  ◌≡◌, some, List, [], ◌∷◌, All, All-append, All_left, All_right, All_map, nat_eq, list_eq,
  list_beq, Bool-cases, Option-cases, inl, inr,
}
use alice_lg.Common.Assoc.{Assoc, get, put}
use alice_lg.Common.Ints.{ℤ}
use alice_lg.Common.Texts.{Text, codes}
use alice_lg.Api.Neighbor.{Neighbor}
use alice_lg.Api.Route.{Route, RoutesResponse, LookupRoute, LookupRouteServer, to_lookup_routes}
use alice_lg.Pools.Strings.{StringPool, acquire, get_pointer}
use alice_lg.Pools.Strings.Identity.{IsDistinct, acquire-IsDistinct, acquire_stored, acquire_keeps}
use alice_lg.Store.Sources.{SourceConfig}
use alice_lg.Store.Memory.Neighbors.{NeighborIndex}
use alice_lg.Store.Memory.Routes.{RoutesBackend, set_routes}
use alice_lg.Store.Memory.Routes.Search.{all_routes}
use alice_lg.Store.Routes.{RoutesStore, prepare_routes, store_routes}
use alice_lg.Store.Routes.Lookup.{IsPooledIn, IsPooled}

-- The id of the neighbor of a route stands in a pool.
abbrev pub HasPooledNeighbor : StringPool → Route → Type 0
HasPooledNeighbor pool r = get_pointer r.neighbor_id.target pool ≡ some r.neighbor_id

module _ (P : LookupRoute → Type 0) where
  All-put :
      (id : Text) (new : List LookupRoute) (b : RoutesBackend)
      → All P new
      → All P (all_routes b)
      → All P (all_routes (put id new b))
  unfolding put
  All-put id new [] h hs = All-append P new [] h tt
  All-put id new ((j, old) ∷ b) h hs = elim (Bool-cases (list_beq j id)) [
    | inl same ↦ rw same (All-append P new (all_routes b) h (All_right P old (all_routes b) hs))
    | inr other ↦ rw other (
        All-append P old (all_routes (put id new b)) (All_left P old (all_routes b) hs)
          (All-put id new b h (All_right P old (all_routes b) hs)))
  ]

-- Routes of a source with a pooled id, as lookup routes
to_lookup_routes-pooled :
    (neighbor_ids server_ids : StringPool) (rs : LookupRouteServer) (state : Text)
    (index : Assoc Text Neighbor) (routes : List Route)
    → get_pointer rs.id.target server_ids ≡ some rs.id
    → All (HasPooledNeighbor neighbor_ids) routes
    → All (IsPooledIn neighbor_ids server_ids) (to_lookup_routes routes state rs index)
unfolding to_lookup_routes
to_lookup_routes-pooled ids servers rs state index [] known h = tt
to_lookup_routes-pooled ids servers rs state index (r ∷ routes) known h =
    elim (Option-cases (get r.neighbor_id.target index)) [
      | inl missing ↦
          rw (to_lookup_routes, missing)
            (to_lookup_routes-pooled ids servers rs state index routes known h.1)
      | inr (n, found) ↦
          rw (to_lookup_routes, found)
            (
              record { neighbor = h.0; server = known },
              to_lookup_routes-pooled ids servers rs state index routes known h.1,
            )
    ]

-- The pointer that a pool gives for a text points to it, and stays in the pool.
acquired_points :
    (id : Text) (p : StringPool)
    → IsDistinct p
    → get_pointer (acquire id p).1.target (acquire id p).0 ≡ some (acquire id p).1
unfolding get_pointer
acquired_points id p h =
    rw (((acquire-IsDistinct id p h).points id (acquire id p).1 (acquire_stored id p h)).0)
      (acquire_stored id p h)

-- When the routes that a source gives have pooled neighbor ids (which its parser takes from the
-- pool), storing them keeps the store pooled: each text has one pointer, and every stored route, old
-- or new, has the pointers that the pools give for its neighbor and its source.
pub store_routes-IsPooled :
    (s : RoutesStore) (src : SourceConfig) (res : RoutesResponse) (neighbors : NeighborIndex)
    (now later : ℤ)
    → IsPooled s
    → All (HasPooledNeighbor s.neighbor_ids) res.imported
    → All (HasPooledNeighbor s.neighbor_ids) res.filtered
    → IsPooled (store_routes s src res neighbors now later).0
unfolding store_routes prepare_routes set_routes
store_routes-IsPooled s src res neighbors now later h imported filtered =
    let pool = (acquire src.id s.server_ids).0 in
    let known = acquired_points src.id s.server_ids h.servers in
    let rs : LookupRouteServer = record { id = (acquire src.id s.server_ids).1; name = src.name } in
    record {
      neighbors = h.neighbors;
      servers = acquire-IsDistinct src.id s.server_ids h.servers;
      stored =
          All-put (IsPooledIn s.neighbor_ids pool) src.id _ s.backend
            (All-append (IsPooledIn s.neighbor_ids pool) _ _
              (to_lookup_routes-pooled s.neighbor_ids pool rs (codes "imported") neighbors
                res.imported known imported)
              (to_lookup_routes-pooled s.neighbor_ids pool rs (codes "filtered") neighbors
                res.filtered known filtered))
            (All_map (IsPooledIn s.neighbor_ids s.server_ids) (IsPooledIn s.neighbor_ids pool)
              (all_routes s.backend)
              (λ r old. record {
                neighbor = old.neighbor;
                server =
                    acquire_keeps src.id s.server_ids h.servers r.route_server.id.target
                      r.route_server.id old.server;
              })
              h.stored);
    }
