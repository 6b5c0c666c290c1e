-- ===== src/Tests/Refreshes.antt =====
-- The routes store of pkg/store at concrete inputs.
use alice_lg.Common.{
  ◌≡◌, refl, List, [], ◌∷◌, ◌&&◌, none, some, true, not, any, keep, nat_eq, list_eq,
}
use alice_lg.Common.Ints.{pos, ltb_ℤ, ◌+ℤ◌}
use alice_lg.Common.Texts.{Text, codes}
use alice_lg.Common.Assoc.{Assoc}
use alice_lg.Api.Neighbor.{Neighbor}
use alice_lg.Api.Route.{LookupRoute, RoutesResponse, lookup_filterable}
use alice_lg.Api.Filters.Six.{listed, verdict}
use alice_lg.Pools.Strings.{StringPool, new_string_pool, acquire, get_pointer}
use alice_lg.Pools.Strings.Identity.{IsDistinct, new-IsDistinct, acquire-IsDistinct}
use alice_lg.Store.Sources.{Sources, new_status, should_refresh}
use alice_lg.Store.Neighbors.{NeighborsStore, neighbors_map_at, is_ready}
use alice_lg.Store.Routes.{
  RoutesStore, Poll, dumped, Messages, await_neighbor_store, safe_update_source, store_routes,
  lookup_prefix_for_neighbors,
}
use alice_lg.Store.Routes.Refresh.{of_wait, pause, Stored, safe_update_source-routes}
use alice_lg.Store.Routes.Lookup.{IsPooled, pairs_of, is_of, lookup_prefix_for_neighbors_exact}
use alice_lg.Store.Routes.Pooled.{store_routes-IsPooled}
use alice_lg.Tests.Stores.{
  rs1, rs2, two_sources, message, neighbor, route_to, all_pass, with_neighbors,
}

abbrev initialized_sources : Sources
initialized_sources = record two_sources {
  status = (rs1, record (new_status (pos 60) rs1) { initialized = true }) ∷ [];
}

abbrev ready_neighbors : NeighborsStore
ready_neighbors = record with_neighbors { sources = initialized_sources }

abbrev pooled : StringPool
pooled = (acquire rs1 (new_string_pool 1)).0

pooled-IsDistinct : IsDistinct pooled
pooled-IsDistinct = acquire-IsDistinct rs1 (new_string_pool 1) (new-IsDistinct 1)

abbrev pub empty_store : RoutesStore
empty_store = record {
  backend = [];
  sources = two_sources;
  limit = 10;
  neighbor_ids = pooled;
  server_ids = pooled;
}

abbrev dump : RoutesResponse
dump = record {
  imported = (route_to (codes "10.0.0.0/8")).route ∷ [];
  filtered = (route_to (codes "192.168.0.0/16")).route ∷ [];
  not_exported = [];
}

abbrev texts : Messages
texts = record { source_error = message; not_initialized = codes "not initialized" }

abbrev polls : List Poll
polls =
    record { cancelled = none; neighbors = with_neighbors }
    ∷ record { cancelled = none; neighbors = ready_neighbors }
    ∷ []

safe_update_source-routes_example :
    let after =
      safe_update_source texts empty_store
        (record { id = rs1; name = rs1 })
        polls
        (dumped dump)
        ready_neighbors
        (pos 60)
        (pos 61)
        (pos 90)
        (pos 91) in
    let o =
      of_wait
        (await_neighbor_store rs1 polls)
        (dumped dump)
        (neighbors_map_at ready_neighbors rs1) in
    (should_refresh after.sources rs1 (pos 100)
      ≡ not (ltb_ℤ (pos 100) (pos 90 +ℤ pause (pos 60) o)))
    × Stored empty_store (record { id = rs1; name = rs1 }) o after.backend
unfolding should_refresh await_neighbor_store is_ready
safe_update_source-routes_example =
    safe_update_source-routes texts empty_store (record { id = rs1; name = rs1 }) polls
      (dumped dump) ready_neighbors (pos 60) (pos 61) (pos 90) (pos 91) (pos 100) refl refl

abbrev some_routes : List LookupRoute
some_routes =
    record (route_to (codes "10.0.0.0/8")) {
      route_server = record { id = record { address = 1; target = rs1 }; name = rs1 };
    }
    ∷ []

abbrev full_store : RoutesStore
full_store = record empty_store { backend = (rs1, some_routes) ∷ [] }

full_store-IsPooled : IsPooled full_store
unfolding get_pointer acquire new_string_pool
full_store-IsPooled = record {
  neighbors = pooled-IsDistinct;
  servers = pooled-IsDistinct;
  stored = (record { neighbor = refl; server = refl }, tt);
}

abbrev results : Assoc Text (List Neighbor)
results = (rs1, neighbor ∷ record neighbor { id = rs2 } ∷ []) ∷ (rs2, []) ∷ []

lookup_prefix_for_neighbors_exact_example :
    lookup_prefix_for_neighbors full_store results (listed all_pass)
    ≡ some (
        keep
          (λ r. any (is_of r) (pairs_of results) && verdict all_pass (lookup_filterable r))
          some_routes)
lookup_prefix_for_neighbors_exact_example =
    lookup_prefix_for_neighbors_exact full_store results all_pass full_store-IsPooled
      ((refl, tt), (tt, tt))

store_routes-IsPooled_example :
    IsPooled
      (store_routes full_store
        (record { id = rs2; name = rs2 })
        dump
        ((rs1, neighbor) ∷ [])
        (pos 1)
        (pos 2)).0
unfolding get_pointer acquire new_string_pool
store_routes-IsPooled_example =
    store_routes-IsPooled full_store (record { id = rs2; name = rs2 }) dump ((rs1, neighbor) ∷ [])
      (pos 1) (pos 2) full_store-IsPooled (refl, tt) (refl, tt)
