-- ===== src/Tests/Stores.antt =====
-- The stores of pkg/store at concrete inputs.
use alice_lg.Common.{
  ◌≡◌, refl, ◌-◌, List, [], ◌∷◌, none, some, true, false, not, ◌&&◌, ◌||◌, take, length, keep, any,
  nat_eq, list_eq,
}
use mathlib.Core.List.{Perm}
use Prim.Native.Nat.{min}
use alice_lg.Common.Ints.{pos, pos_part, ltb_ℤ, ◌+ℤ◌}
use alice_lg.Common.Texts.{Text, codes, to_lower}
use alice_lg.Api.Community.{BgpInfo}
use alice_lg.Api.Neighbor.{Neighbor, NeighborFilter, match_neighbor}
use alice_lg.Api.Route.{LookupRoute, NeighborQuery, lookup_filterable}
use alice_lg.Api.Filters.Six.{Groups, listed, verdict}
use alice_lg.Api.Filters.Group.{Group}
use alice_lg.Store.Memory.Routes.Peers.{sought, find_by_neighbors_exact}
use Prim.Native.String.{String}
use alice_lg.Store.Sources.{
  Sources, Status, Error, source_busy, new_status, lock_source, is_initialized, should_refresh,
  get_source_ids_for_refresh,
}
use alice_lg.Store.Sources.Exclusion.{
  Event, success, failure, run, succeeds, lock_exclusive, initialized_exact,
}
use alice_lg.Store.Sources.Exclusion
use alice_lg.Store.Sources.Schedule.{IsSorted, statuses, busy_count, source_ids, refresh_order}
use alice_lg.Store.Memory.Routes.{RoutesBackend, find_by_prefix, find_by_neighbors, skipped}
use alice_lg.Store.Memory.Routes.Search.{all_routes, answer, find_by_prefix_exact}
use alice_lg.Store.Neighbors.Search.{
  matching, gathered, filter_neighbors_exact, lookup_neighbors_exact,
}
use alice_lg.Store.Memory.Neighbors.{
  get_neighbors_at, NeighborIndex, set_neighbors, get_neighbors_map_at,
}
use alice_lg.Store.Memory.Neighbors.Latest.{last_with, get_neighbors_map_at-set_neighbors}
use alice_lg.Common.Assoc.{get}
use alice_lg.Common.{if◌then◌else◌, list_beq}
use alice_lg.Store.Neighbors.{
  get_source_ids, filter_neighbors, lookup_neighbors, NeighborsStore, panics, safe_update_source,
}
use alice_lg.Store.Neighbors.Refresh.{pause, kept, safe_update_source_lem}

abbrev pub rs1 : Text
rs1 = codes "rs1"

abbrev pub rs2 : Text
rs2 = codes "rs2"

abbrev pub two_sources : Sources
two_sources = record {
  refresh_interval = pos 60;
  refresh_parallelism = pos 1;
  status = (rs1, new_status (pos 60) rs1) ∷ (rs2, new_status (pos 60) rs2) ∷ [];
  sources = (rs1, record { id = rs1; name = rs1 }) ∷ (rs2, record { id = rs2; name = rs2 }) ∷ [];
}

abbrev other_events : List Event
other_events =
    Exclusion.lock rs2 (pos 71) ∷ success rs2 (pos 72) (pos 72) ∷ Exclusion.lock rs1 (pos 73) ∷ []

lock_exclusive_example :
    (lock_source (run (lock_source two_sources rs1 (pos 70)).0 other_events) rs1 (pos 80)).1
    ≡ some source_busy
unfolding lock_source
lock_exclusive_example =
    lock_exclusive two_sources rs1 (pos 70) (pos 80) other_events refl (refl, (refl, (refl, tt)))

initialized_exact_example :
    is_initialized (run two_sources other_events) rs2
    ≡ some (false || any (succeeds rs2) other_events)
unfolding is_initialized
initialized_exact_example = initialized_exact two_sources rs2 other_events refl

refresh_order_example :
    (sorted : List Status) × Perm sorted (statuses two_sources.status)
    × IsSorted sorted
    × (get_source_ids_for_refresh two_sources
        ≡ source_ids (
            take (pos_part two_sources.refresh_parallelism - busy_count two_sources.status) sorted))
    × (length (get_source_ids_for_refresh two_sources)
        ≡ min
            (pos_part two_sources.refresh_parallelism - busy_count two_sources.status)
            (length two_sources.status))
refresh_order_example = refresh_order two_sources

abbrev neighbors_store : NeighborsStore
neighbors_store = record { backend = []; sources = two_sources; force_neighbor_refresh = false }

abbrev pub message : Error → Text
message _ = codes "source error"

safe_update_source_lem_example :
    let after =
      safe_update_source message neighbors_store rs1
        (panics (codes "oops"))
        (pos 60)
        (pos 61)
        (pos 90)
        (pos 91) in
    (should_refresh after.sources rs1 (pos 100)
      ≡ not (ltb_ℤ (pos 100) (pos 90 +ℤ pause (pos 60) (panics (codes "oops")))))
    × (after.backend ≡ kept [] rs1 (panics (codes "oops")))
unfolding should_refresh
safe_update_source_lem_example =
    safe_update_source_lem message neighbors_store rs1 (panics (codes "oops")) (pos 60) (pos 61)
      (pos 90) (pos 91) (pos 100) refl

abbrev pub bgp_info : BgpInfo
bgp_info = record {
  origin = none;
  as_path = [];
  next_hop = none;
  communities = [];
  large_communities = [];
  ext_communities = [];
  local_pref = pos 0;
  med = pos 0;
  otc = none;
}

abbrev pub neighbor : Neighbor
neighbor = record {
  id = rs1;
  address = [];
  asn = pos 64512;
  state = [];
  description = [];
  routes_received = pos 0;
  routes_filtered = pos 0;
  routes_exported = pos 0;
  routes_preferred = pos 0;
  routes_accepted = pos 0;
  uptime = pos 0;
  last_error = [];
  route_server_id = rs1;
  routes_channels = [];
}

abbrev pub route_to : Text → LookupRoute
route_to network = record {
  route = record {
    neighbor_id = record { address = 1; target = rs1 };
    network = network;
    interface = none;
    gateway = [];
    metric = pos 0;
    bgp = bgp_info;
    age = pos 0;
    kind = [];
    primary = true;
    learnt_from = none;
    addr_family = 1;
    details = none;
  };
  state = codes "imported";
  neighbor = neighbor;
  route_server = record { id = record { address = 2; target = rs1 }; name = rs1 };
}

abbrev pub stored_routes : RoutesBackend
stored_routes = (rs1, route_to (codes "10.0.0.0/8") ∷ route_to (codes "172.16.0.0/12") ∷ []) ∷ []

abbrev pub no_filters : String → Group
no_filters key = record { key = key; filters = []; index = [] }

abbrev pub all_pass : Groups
all_pass = record {
  by_source = no_filters "sources";
  by_asn = no_filters "asns";
  by_community = no_filters "communities";
  by_ext_community = no_filters "ext_communities";
  by_large_community = no_filters "large_communities";
  by_addr_family = no_filters "addr_family";
}

find_by_prefix_exact_example :
    find_by_prefix stored_routes (codes "10.") (listed all_pass) 5
    ≡ some (
        answer 5 (
          keep
            (λ route.
              not (skipped (to_lower (codes "10.")) route)
              && verdict all_pass (lookup_filterable route))
            (all_routes stored_routes)))
find_by_prefix_exact_example = find_by_prefix_exact stored_routes (codes "10.") all_pass 5

abbrev neighbor_queries : List NeighborQuery
neighbor_queries =
    record {
      neighbor_id = record { address = 1; target = rs1 };
      source_id = record { address = 2; target = rs1 };
    }
    ∷ record {
      neighbor_id = record { address = 3; target = rs2 };
      source_id = record { address = 2; target = rs1 };
    }
    ∷ []

find_by_neighbors_exact_example :
    find_by_neighbors stored_routes neighbor_queries (listed all_pass)
    ≡ some (keep (sought all_pass neighbor_queries) (all_routes stored_routes))
find_by_neighbors_exact_example =
    find_by_neighbors_exact all_pass neighbor_queries ((refl, tt), (tt, tt)) stored_routes

abbrev pub with_neighbors : NeighborsStore
with_neighbors = record {
  backend = (rs1, (rs1, neighbor) ∷ []) ∷ [];
  sources = two_sources;
  force_neighbor_refresh = false;
}

abbrev by_asn : NeighborFilter
by_asn = record { name = []; asn = pos 64512 }

filter_neighbors_exact_example :
    filter_neighbors with_neighbors by_asn
    ≡ keep (match_neighbor by_asn) (gathered with_neighbors (get_source_ids two_sources))
filter_neighbors_exact_example = filter_neighbors_exact with_neighbors by_asn

lookup_neighbors_exact_example : get rs1 (lookup_neighbors with_neighbors (codes "AS64512")) ≡ (
    if any (λ other. list_beq other rs1) (get_source_ids two_sources)
    then matching (codes "AS64512") (get_neighbors_at with_neighbors.backend rs1)
    else none)
lookup_neighbors_exact_example = lookup_neighbors_exact with_neighbors (codes "AS64512") rs1

get_neighbors_map_at-set_neighbors_example :
    ((m : NeighborIndex) × (get_neighbors_map_at (set_neighbors [] rs1 (neighbor ∷ [])) rs1
        ≡ some m)
      × ((k : Text) → get k m ≡ last_with k (neighbor ∷ [])))
    × ((other : Text)
        → get_neighbors_map_at (set_neighbors [] rs1 (neighbor ∷ [])) other ≡ (
            if list_beq rs1 other
            then get_neighbors_map_at (set_neighbors [] rs1 (neighbor ∷ [])) rs1
            else get_neighbors_map_at [] other))
get_neighbors_map_at-set_neighbors_example =
    get_neighbors_map_at-set_neighbors [] rs1 (neighbor ∷ [])
