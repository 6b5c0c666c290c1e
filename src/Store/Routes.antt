-- ===== src/Store/Routes.antt =====
-- pkg/store/routes_store.go over the in-memory backend. The global pools of neighbor ids and of
-- ids of route servers, which the store reads and writes, are part of its state. What the instance
-- of a source answers, the states of the neighbors store that are polled, and the clock are
-- arguments.
pub mod Refresh
pub mod Lookup
pub mod Pooled
pub mod Prepared
use alice_lg.Common.{
  ℕ, ◌+◌, Bool, true, false, Option, none, some, List, [], ◌∷◌, ◌++◌, map, if◌then◌else◌, nat_eq,
  list_eq,
}
use alice_lg.Common.Assoc.{Assoc, get}
use alice_lg.Common.Ints.{ℤ}
use alice_lg.Common.Texts.{Text, codes}
use alice_lg.Api.Neighbor.{Neighbor}
use alice_lg.Api.Route.{
  Route, RoutesResponse, LookupRoute, LookupRouteServer, NeighborQuery, to_lookup_routes,
}
use alice_lg.Api.Filters.Collection.{SearchFilters}
use alice_lg.Pools.Strings.{StringPool, acquire, get_pointer}
use alice_lg.Store.Sources.{
  Sources, SourceConfig, Error, get_status, should_refresh, lock_source, refresh_success,
  refresh_error,
}
use alice_lg.Store.Status.{state_string}
use alice_lg.Store.Memory.Neighbors.{NeighborIndex}
use alice_lg.Store.Memory.Routes.{
  RoutesBackend, Found, set_routes, count_routes_at, find_by_neighbors, find_by_prefix,
}
use alice_lg.Store.Neighbors.{
  NeighborsStore, Read, value, source_not_initialized, not_found, failed, panicked, is_ready,
  neighbors_map_at, get_source_ids,
}

-- RoutesStore, with pools.Neighbors and pools.RouteServers; the neighbors store is an argument.
pub record RoutesStore : Type 0 where
  pub backend : RoutesBackend
  pub sources : Sources
  pub limit : ℕ
  pub neighbor_ids : StringPool
  pub server_ids : StringPool

-- newNeighborQuery; `none` is nil.
unfoldable pub new_neighbor_query : RoutesStore → Text → Text → Option NeighborQuery
new_neighbor_query s neighbor_id source_id = elim (get_pointer neighbor_id s.neighbor_ids) [
  | none ↦ none
  | some neighbor ↦ elim (get_pointer source_id s.server_ids) [
    | none ↦ none
    | some source ↦ some (record { neighbor_id = neighbor; source_id = source })
  ]
]

-- One round of awaitNeighborStore: the error of the context, and the neighbors store then
pub record Poll : Type 0 where
  pub cancelled : Option Text
  pub neighbors : NeighborsStore

-- How awaitNeighborStore ends, or that it still waits
pub data Awaited : Type 0 where
  ready_to_go waiting : Awaited
  gave_up : Text → Awaited

-- awaitNeighborStore
unfoldable pub await_neighbor_store : Text → List Poll → Awaited
unfolding is_ready
await_neighbor_store id [] = waiting
await_neighbor_store id (p ∷ polls) = elim p.cancelled [
  | some e ↦ gave_up e
  | none ↦ if is_ready p.neighbors id then ready_to_go else await_neighbor_store id polls
]

-- What `Source.AllRoutes` does
pub data Dump : Type 0 where
  dumped : RoutesResponse → Dump
  dump_fails dump_panics : Text → Dump

-- The routes that updateSource prepares, and the pool after it has acquired the id of the source
unfoldable pub prepare_routes :
    RoutesStore → SourceConfig → RoutesResponse → NeighborIndex → StringPool × List LookupRoute
unfolding acquire to_lookup_routes
prepare_routes s src res neighbors =
    let (pool, id) = acquire src.id s.server_ids in
    let server : LookupRouteServer = record { id = id; name = src.name } in
    (
      pool,
      to_lookup_routes res.imported (codes "imported") server neighbors
          ++ to_lookup_routes res.filtered (codes "filtered") server neighbors,
    )

-- updateSource from there on: SetRoutes and RefreshSuccess
unfoldable pub store_routes :
    RoutesStore → SourceConfig → RoutesResponse → NeighborIndex → ℤ → ℤ → RoutesStore × Option Error
unfolding prepare_routes set_routes refresh_success
store_routes s src res neighbors now later =
    let (pool, routes) = prepare_routes s src res neighbors in
    let (sources, err) = refresh_success s.sources src.id now later in
    (
      record s {
        server_ids = pool;
        backend = set_routes s.backend src.id routes;
        sources = sources;
      },
      err,
    )

-- How updateSource ends, or that it still waits for the neighbors store
pub data Updated : Type 0 where
  updated : RoutesStore → Option Error → Updated
  returned_error crashed : Text → Updated
  still_waiting : Updated

-- The texts of the errors that updateSource passes on
pub record Messages : Type 0 where
  pub source_error : Error → Text
  pub not_initialized : Text

-- updateSource after the wait; the neighbors are read from the neighbors store as it is then.
unfoldable pub update_with :
    Messages → RoutesStore → SourceConfig → Dump → NeighborsStore → ℤ → ℤ → Updated
unfolding neighbors_map_at store_routes
update_with texts s src (dump_fails e) neighbors now later = returned_error e
update_with texts s src (dump_panics e) neighbors now later = crashed e
update_with texts s src (dumped res) neighbors now later =
    elim (neighbors_map_at neighbors src.id) [
      | source_not_initialized ↦ returned_error texts.not_initialized
      | not_found ↦ returned_error (texts.source_error Error.source_not_found)
      | failed e ↦ returned_error e
      | panicked e ↦ crashed e
      | value index ↦ let (t, err) = store_routes s src res index now later in updated t err
    ]

-- updateSource
unfoldable pub update_source :
    Messages → RoutesStore → SourceConfig → List Poll → Dump → NeighborsStore → ℤ → ℤ → Updated
unfolding await_neighbor_store update_with
update_source texts s src polls dump neighbors now later =
    elim (await_neighbor_store src.id polls) [
      | waiting ↦ still_waiting
      | gave_up e ↦ returned_error e
      | ready_to_go ↦ update_with texts s src dump neighbors now later
    ]

-- RefreshError, as the store calls it
unfoldable pub report : RoutesStore → Text → Text → ℤ → ℤ → RoutesStore
unfolding refresh_error
report s id source_error now later = record s {
  sources = refresh_error s.sources id source_error now later;
}

-- safeUpdateSource once it has the lock
unfoldable pub conclude : Messages → RoutesStore → Text → Updated → ℤ → ℤ → RoutesStore
unfolding report
conclude texts s id still_waiting now later = s
conclude texts s id (returned_error e) now later = report s id e now later
conclude texts s id (crashed e) now later = report s id e now later
conclude texts s id (updated t none) now later = t
conclude texts s id (updated t (some e)) now later = report t id (texts.source_error e) now later

-- safeUpdateSource of a source with its configuration
unfoldable pub safe_update_source :
    Messages
    → RoutesStore
    → SourceConfig
    → List Poll
    → Dump
    → NeighborsStore
    → ℤ
    → ℤ
    → ℤ
    → ℤ
    → RoutesStore
unfolding should_refresh lock_source update_source conclude
safe_update_source texts s src polls dump neighbors checked_at locked_at now later =
    if should_refresh s.sources src.id checked_at
    then (let (sources, err) = lock_source s.sources src.id locked_at in
        elim err [
          | some e ↦ s
          | none ↦
              conclude texts (record s { sources = sources }) src.id
                (update_source texts (record s { sources = sources }) src polls dump neighbors now
                  later)
                now later
        ])
    else s

-- RouteServerRoutesStats
pub record RouteServerStats : Type 0 where
  pub name : Text
  pub imported : ℕ
  pub filtered : ℕ
  pub state : Text
  pub updated_at : ℤ

-- The counts of one source: a source that the backend does not know has none.
unfoldable pub counts_at : RoutesStore → Text → ℕ × ℕ
unfolding count_routes_at
counts_at s id = elim (count_routes_at s.backend id) [ none ↦ (0, 0) | some n ↦ n ]

-- The loop of Stats, with the totals so far; `get_name` gives `src.Name`.
unfoldable pub stats_over :
    RoutesStore → List Text → ℕ × ℕ → List RouteServerStats → (ℕ × ℕ) × List RouteServerStats
unfolding get_status get counts_at state_string
stats_over s [] totals servers = (totals, servers)
stats_over s (id ∷ ids) totals servers = elim (get_status s.sources id) [
  | none ↦ stats_over s ids totals servers
  | some st ↦
      let (imported, filtered) = counts_at s id in
      stats_over s ids (totals.0 + imported, totals.1 + filtered)
        (servers
          ++ record {
            name = elim (get id s.sources.sources) [ none ↦ [] | some src ↦ src.name ];
            imported = imported;
            filtered = filtered;
            state = state_string st.state;
            updated_at = st.last_refresh;
          }
            ∷ [])
]

-- Stats
unfoldable pub stats : RoutesStore → (ℕ × ℕ) × List RouteServerStats
unfolding stats_over
stats s = stats_over s (get_source_ids s.sources) (0, 0) []

-- LookupPrefix
unfoldable pub lookup_prefix : RoutesStore → Text → SearchFilters → Option Found
unfolding find_by_prefix
lookup_prefix s prefix filters = find_by_prefix s.backend prefix filters s.limit

-- The inner loop of LookupPrefixForNeighbors
unfoldable pub queries_at : RoutesStore → Text → List Neighbor → List NeighborQuery
queries_at s source_id [] = []
queries_at s source_id (n ∷ ns) =
    let rest = queries_at s source_id ns in
    elim (new_neighbor_query s n.id source_id) [ none ↦ rest | some q ↦ q ∷ rest ]

-- The outer loop
unfoldable pub queries_of : RoutesStore → Assoc Text (List Neighbor) → List NeighborQuery
queries_of s [] = []
queries_of s ((source_id, ns) ∷ results) = queries_at s source_id ns ++ queries_of s results

-- LookupPrefixForNeighbors
unfoldable pub lookup_prefix_for_neighbors :
    RoutesStore → Assoc Text (List Neighbor) → SearchFilters → Option (List LookupRoute)
lookup_prefix_for_neighbors s neighbors filters =
    find_by_neighbors s.backend (queries_of s neighbors) filters
