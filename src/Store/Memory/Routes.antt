-- ===== src/Store/Memory/Routes.antt =====
-- pkg/store/backends/memory/routes_backend.go. A panic of the filters is `none`.
pub mod Search
pub mod Peers
use alice_lg.Common.{
  ℕ, ◌+◌, Bool, true, false, not, ◌&&◌, ◌||◌, Option, none, some, List, [], ◌∷◌, ◌++◌, length, ltb,
  leb, nat_beq, nat_eq, list_eq, list_beq, if◌then◌else◌, ◌>>=◌,
}
use alice_lg.Common.Assoc.{Assoc, get, put}
use alice_lg.Common.Texts.{Text, codes, to_lower, has_prefix}
use alice_lg.Api.Route.{LookupRoute, NeighborQuery, lookup_filterable, match_neighbor_query}
use alice_lg.Api.Filters.Collection.{SearchFilters, match_route}

-- RoutesBackend
abbrev pub RoutesBackend : Type 0
RoutesBackend = Assoc Text (List LookupRoute)

-- SetRoutes
unfoldable pub set_routes : RoutesBackend → Text → List LookupRoute → RoutesBackend
unfolding put
set_routes r source_id routes = put source_id routes r

-- The loop of `CountRoutesAt`, over (imported, filtered)
unfoldable pub count_routes : List LookupRoute → ℕ × ℕ
count_routes [] = (0, 0)
count_routes (route ∷ routes) =
    let (imported, filtered) = count_routes routes in
    (
      if list_beq route.state (codes "imported") then imported + 1 else imported,
      if list_beq route.state (codes "filtered") then filtered + 1 else filtered,
    )

-- CountRoutesAt; `none` is ErrSourceNotFound.
unfoldable pub count_routes_at : RoutesBackend → Text → Option (ℕ × ℕ)
unfolding get count_routes
count_routes_at r source_id = elim (get source_id r) [
  | none ↦ none
  | some routes ↦ some (count_routes routes)
]

-- The innermost loop of `FindByNeighbors`, over the queries, for one route
unfoldable pub by_queries :
    SearchFilters → LookupRoute → List NeighborQuery → Option (List LookupRoute)
unfolding match_neighbor_query match_route lookup_filterable
by_queries filters route [] = some []
by_queries filters route (q ∷ query) =
    let rest = by_queries filters route query in
    if not (match_neighbor_query route q)
    then rest
    else (match_route filters (lookup_filterable route) >>= λ matched.
        rest >>= λ found. some (if matched then route ∷ found else found))

-- The loop of `FindByNeighbors` over the routes of one source
unfoldable pub by_routes :
    SearchFilters → List NeighborQuery → List LookupRoute → Option (List LookupRoute)
unfolding by_queries
by_routes filters query [] = some []
by_routes filters query (route ∷ routes) = do
  found ← by_queries filters route query
  rest ← by_routes filters query routes
  some (found ++ rest)

-- FindByNeighbors
unfoldable pub find_by_neighbors :
    RoutesBackend → List NeighborQuery → SearchFilters → Option (List LookupRoute)
unfolding by_routes
find_by_neighbors [] query filters = some []
find_by_neighbors ((_, routes) ∷ r) query filters = do
  found ← by_routes filters query routes
  rest ← find_by_neighbors r query filters
  some (found ++ rest)

-- The answer of `FindByPrefix`
pub data Found : Type 0 where
  routes : List LookupRoute → Found
  too_many_routes : Found

-- limit > 0 && count >= limit
abbrev pub at_limit : ℕ → ℕ → Bool
at_limit limit count = ltb 0 limit && leb limit count

-- Where the loops of `FindByPrefix` stand: the result with its length, or past the limit
pub data Scan : Type 0 where
  more : List LookupRoute → ℕ → Scan
  exceeded : Scan

-- The test of one route by prefix, which comes before that by the filters
abbrev pub skipped : Text → LookupRoute → Bool
skipped prefix route =
    not (nat_beq (length prefix) 0) && not (has_prefix (to_lower route.route.network) prefix)

module _ (prefix : Text) (filters : SearchFilters) (limit : ℕ) where
  -- The loop of `FindByPrefix` over the routes of one source, with the result and its length so
  -- far; the limit ends it and the iteration.
  unfoldable pub scan_routes : List LookupRoute → List LookupRoute → ℕ → Option Scan
  unfolding has_prefix to_lower match_route lookup_filterable
  scan_routes [] result count = some (more result count)
  scan_routes (route ∷ rest) result count =
      let next = scan_routes rest result count in
      let taken = scan_routes rest (result ++ route ∷ []) (count + 1) in
      if skipped prefix route
      then next
      else (match_route filters (lookup_filterable route) >>= λ matched.
          if not matched then next else if at_limit limit (count + 1) then some exceeded else taken)

  -- The iteration over the sources
  unfoldable pub scan_sources : RoutesBackend → List LookupRoute → ℕ → Option Found
  unfolding scan_routes
  scan_sources [] result count = some (routes result)
  scan_sources ((_, source) ∷ r) result count =
      if at_limit limit count
      then some too_many_routes
      else (scan_routes source result count >>= λ scanned. elim scanned [
        | more result' count' ↦ scan_sources r result' count'
        | exceeded ↦ some too_many_routes
      ])

-- FindByPrefix
unfoldable pub find_by_prefix : RoutesBackend → Text → SearchFilters → ℕ → Option Found
unfolding scan_sources to_lower
find_by_prefix r prefix filters limit = scan_sources (to_lower prefix) filters limit r [] 0
