-- ===== src/Store/Memory/Routes/Peers.antt =====
-- The search by neighbors.
use alice_lg.Common.{
  ◌≡◌, refl, ap, sym, Bool, true, false, ◌&&◌, some, List, [], ◌∷◌, ◌++◌, nat_beq, if◌then◌else◌,
  arith, any, keep, All, Bool-cases, inl, inr, keep-append,
}
use alice_lg.Api.Route.{LookupRoute, NeighborQuery, match_neighbor_query, lookup_filterable}
use alice_lg.Api.Filters.Six.{Groups, listed, verdict, match_route-verdict}
use alice_lg.Store.Memory.Routes.{RoutesBackend, by_queries, by_routes, find_by_neighbors}
use alice_lg.Store.Memory.Routes.Search.{all_routes}

-- Two queries for the same neighbor of the same source
abbrev pub same_query : NeighborQuery → NeighborQuery → Bool
same_query p q =
    nat_beq p.source_id.address q.source_id.address
    && nat_beq p.neighbor_id.address q.neighbor_id.address

-- No two queries of a list are for the same neighbor.
abbrev pub Different : List NeighborQuery → Type 0
Different [] = Unit
Different (q ∷ query) = All (λ p. same_query q p ≡ false) query × Different query

-- Whether a route is wanted
abbrev pub sought : Groups → List NeighborQuery → LookupRoute → Bool
sought g query route = any (match_neighbor_query route) query && verdict g (lookup_filterable route)

abbrev once : Bool → LookupRoute → List LookupRoute
once b route = if b then route ∷ [] else []

other_query :
    (route : LookupRoute) (p q : NeighborQuery)
    → same_query q p ≡ false
    → match_neighbor_query route q ≡ true
    → match_neighbor_query route p ≡ false
unfolding match_neighbor_query
other_query route p q differ hit = ground (arith, differ, hit)

module _ (g : Groups) (route : LookupRoute) where
  no_more :
      (q : NeighborQuery) (query : List NeighborQuery)
      → All (λ p. same_query q p ≡ false) query
      → match_neighbor_query route q ≡ true
      → by_queries (listed g) route query ≡ some []
  unfolding by_queries
  no_more q [] differ hit = refl
  no_more q (p ∷ query) differ hit =
      rw (other_query route p q differ.0 hit) (no_more q query differ.1 hit)

  by_queries_lem :
      (query : List NeighborQuery)
      → Different query
      → by_queries (listed g) route query ≡ some (once (sought g query route) route)
  unfolding by_queries any
  by_queries_lem [] differ = refl
  by_queries_lem (q ∷ query) differ = elim (Bool-cases (match_neighbor_query route q)) [
    | inl hit ↦
        rw (hit, match_route-verdict g (lookup_filterable route), no_more q query differ.0 hit) refl
    | inr miss ↦ rw miss (by_queries_lem query differ.1)
  ]

module _ (g : Groups) (query : List NeighborQuery) (differ : Different query) where
  keep-once :
      (route : LookupRoute) (routes : List LookupRoute)
      → once (sought g query route) route ++ keep (sought g query) routes
        ≡ keep (sought g query) (route ∷ routes)
  unfolding keep
  keep-once route routes = elim (Bool-cases (sought g query route)) [
    | inl yes' ↦ rw yes' refl
    | inr no' ↦ rw no' refl
  ]

  by_routes_lem :
      (routes : List LookupRoute)
      → by_routes (listed g) query routes ≡ some (keep (sought g query) routes)
  unfolding by_routes keep
  by_routes_lem [] = refl
  by_routes_lem (route ∷ routes) =
      rw (by_queries_lem g route query differ, by_routes_lem routes)
        (ap some (keep-once route routes))

  -- For queries of different neighbors, and filters in the six groups, the search finds exactly
  -- the routes of one of the neighbors that match the filters, each as often as it is stored, in
  -- the order of the iteration.
  pub find_by_neighbors_exact :
      (r : RoutesBackend)
      → find_by_neighbors r query (listed g) ≡ some (keep (sought g query) (all_routes r))
  unfolding find_by_neighbors keep
  find_by_neighbors_exact [] = refl
  find_by_neighbors_exact ((k, source) ∷ r) =
      rw (by_routes_lem source, find_by_neighbors_exact r)
        (ap some (sym (keep-append (sought g query) source (all_routes r))))
