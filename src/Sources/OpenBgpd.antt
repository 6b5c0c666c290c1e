-- ===== src/Sources/OpenBgpd.antt =====
-- pkg/sources/openbgpd: filters.go and the source over bgplgd, bgplgd_source.go (the methods of the
-- source over the state server, state_server_source.go, have the same bodies but for the URLs, the
-- status and ExpireCaches). The HTTP request of a call with the decoding of its answer is an
-- argument: what the server gives for it. The clock is an argument too.
pub mod Coherence
pub mod StateServer
use alice_lg.Common.{
  ℕ, suc, ◌+◌, Bool, true, false, not, Option, none, some, List, [], ◌∷◌, length, any, nat_eq,
  list_eq, if◌then◌else◌,
}
use alice_lg.Common.Ints.{ℤ, pos, ◌+ℤ◌, int_beq}
use alice_lg.Common.Texts.{Text}
use alice_lg.Api.Community.{Community, has_large_community}
use alice_lg.Api.Neighbor.{Neighbor}
use alice_lg.Api.Route.{Route, RoutesResponse}
use alice_lg.Caches.Neighbors as Single
use alice_lg.Caches.Neighbors.{Response, NeighborsCache, new_neighbors_cache}
use alice_lg.Caches.Routes
use alice_lg.Caches.Routes.{RoutesCache, new_routes_cache, expire}
use alice_lg.Sources.Answers.{Answer, answer, failed}

-- Config
pub record Config : Type 0 where
  pub id : Text
  pub cache_ttl : ℤ
  pub routes_cache_size : ℤ
  pub reject_communities : List Community

-- BgplgdSource
pub record Source : Type 0 where
  pub cfg : Config
  pub neighbors_cache : NeighborsCache (List Neighbor)
  pub neighbors_summary_cache : NeighborsCache (List Neighbor)
  pub routes_cache : RoutesCache RoutesResponse
  pub routes_received_cache : RoutesCache RoutesResponse
  pub routes_filtered_cache : RoutesCache RoutesResponse

-- NewBgplgdSource
unfoldable pub new_source : Config → Source
unfolding new_neighbors_cache new_routes_cache
new_source cfg =
    let disabled = int_beq cfg.cache_ttl (pos 0) in
    record {
      cfg = cfg;
      neighbors_cache = new_neighbors_cache disabled;
      neighbors_summary_cache = new_neighbors_cache disabled;
      routes_cache = new_routes_cache disabled cfg.routes_cache_size;
      routes_received_cache = new_routes_cache disabled cfg.routes_cache_size;
      routes_filtered_cache = new_routes_cache disabled cfg.routes_cache_size;
    }

-- slices.ContainsFunc(rejectCommunities, r.BGP.HasLargeCommunity)
unfoldable pub is_rejected : List Community → Route → Bool
unfolding any has_large_community
is_rejected reject_communities r = any (has_large_community r.bgp) reject_communities

-- filterReceivedRoutes
unfoldable pub filter_received_routes : List Community → List Route → List Route
unfolding is_rejected
filter_received_routes reject_communities [] = []
filter_received_routes reject_communities (r ∷ routes) =
    let rest = filter_received_routes reject_communities routes in
    let received = if is_rejected reject_communities r then false else true in
    if received then r ∷ rest else rest

-- filterRejectedRoutes
unfoldable pub filter_rejected_routes : List Community → List Route → List Route
unfolding is_rejected
filter_rejected_routes reject_communities [] = []
filter_rejected_routes reject_communities (r ∷ routes) =
    let rest = filter_rejected_routes reject_communities routes in
    if is_rejected reject_communities r then r ∷ rest else rest

-- A response made at an instant
abbrev pub respond {ℓ} : {A : Type ℓ} → Config → A → ℤ → Response A
respond cfg content made_at = record { ttl = made_at +ℤ cfg.cache_ttl; content = content }

-- The three responses that are made from the routes of a neighbor
abbrev pub both_parts : Config → List Route → RoutesResponse
both_parts cfg routes = record {
  imported = filter_received_routes cfg.reject_communities routes;
  not_exported = [];
  filtered = filter_rejected_routes cfg.reject_communities routes;
}

abbrev pub received_part : Config → List Route → RoutesResponse
received_part cfg routes = record {
  imported = filter_received_routes cfg.reject_communities routes;
  not_exported = [];
  filtered = [];
}

abbrev pub filtered_part : Config → List Route → RoutesResponse
filtered_part cfg routes = record {
  imported = [];
  not_exported = [];
  filtered = filter_rejected_routes cfg.reject_communities routes;
}

-- A cached call, the common body of Routes, RoutesReceived and RoutesFiltered: the instants are
-- those of the look into the cache and of the response.
unfoldable pub through_cache :
    Config
    → (Config → List Route → RoutesResponse)
    → RoutesCache RoutesResponse
    → Text
    → Answer (List Route)
    → ℤ
    → ℤ
    → RoutesCache RoutesResponse × Answer RoutesResponse
unfolding Routes.get Routes.set
through_cache cfg part cache neighbor_id rib now later =
    let (looked, hit) = Routes.get cache neighbor_id now in
    elim hit [
      | some response ↦ (looked, answer response.content)
      | none ↦ elim rib [
        | failed e ↦ (looked, failed e)
        | answer routes ↦ (
          Routes.set looked neighbor_id (respond cfg (part cfg routes) later) later,
          answer (part cfg routes),
        )
      ]
    ]

-- BgplgdSource.Routes
unfoldable pub routes : Source → Text → Answer (List Route) → ℤ → ℤ → Source × Answer RoutesResponse
unfolding through_cache filter_received_routes filter_rejected_routes
routes src neighbor_id rib now later =
    let (cache, res) =
      through_cache src.cfg both_parts src.routes_cache neighbor_id rib now later in
    (record src { routes_cache = cache }, res)

-- BgplgdSource.RoutesReceived
unfoldable pub routes_received :
    Source → Text → Answer (List Route) → ℤ → ℤ → Source × Answer RoutesResponse
unfolding through_cache filter_received_routes
routes_received src neighbor_id rib now later =
    let (cache, res) =
      through_cache src.cfg received_part src.routes_received_cache neighbor_id rib now later in
    (record src { routes_received_cache = cache }, res)

-- BgplgdSource.RoutesFiltered
unfoldable pub routes_filtered :
    Source → Text → Answer (List Route) → ℤ → ℤ → Source × Answer RoutesResponse
unfolding through_cache filter_rejected_routes
routes_filtered src neighbor_id rib now later =
    let (cache, res) =
      through_cache src.cfg filtered_part src.routes_filtered_cache neighbor_id rib now later in
    (record src { routes_filtered_cache = cache }, res)

-- BgplgdSource.RoutesNotExported
unfoldable pub routes_not_exported : Source → Text → RoutesResponse
routes_not_exported src neighbor_id = record { imported = []; not_exported = []; filtered = [] }

-- BgplgdSource.AllRoutes
unfoldable pub all_routes : Source → Answer (List Route) → Answer RoutesResponse
unfolding filter_received_routes filter_rejected_routes
all_routes src (failed e) = failed e
all_routes src (answer routes) = answer (both_parts src.cfg routes)

-- The loop of Neighbors: a neighbor gets the id of the source and the number of its filtered
-- routes. `clock` gives the instants, two for each neighbor.
unfoldable pub count_filtered :
    Source
    → (Text → Answer (List Route))
    → (ℕ → ℤ)
    → ℕ
    → List Neighbor
    → Source × Answer (List Neighbor)
unfolding routes_filtered
count_filtered src rib clock i [] = (src, answer [])
count_filtered src rib clock i (n ∷ ns) =
    let (looked, rejected) = routes_filtered src n.id (rib n.id) (clock i) (clock (suc i)) in
    let rest = count_filtered looked rib clock (i + 2) ns in
    elim rejected [
      | failed e ↦ (looked, failed e)
      | answer res ↦ elim rest.1 [
        | failed e ↦ (rest.0, failed e)
        | answer counted ↦ (
          rest.0,
          answer (
              record n { route_server_id = src.cfg.id; routes_filtered = pos (length res.filtered) }
              ∷ counted),
        )
      ]
    ]

-- BgplgdSource.Neighbors
unfoldable pub neighbors :
    Source
    → Answer (List Neighbor)
    → (Text → Answer (List Route))
    → (ℕ → ℤ)
    → ℤ
    → ℤ
    → Source × Answer (List Neighbor)
unfolding Single.get Single.set count_filtered
neighbors src shown rib clock now later = elim (Single.get src.neighbors_cache now) [
  | some response ↦ (src, answer response.content)
  | none ↦ elim shown [
    | failed e ↦ (src, failed e)
    | answer nb ↦
        let (counted, res) = count_filtered src rib clock 0 nb in
        elim res [
          | failed e ↦ (counted, failed e)
          | answer ns ↦ (
            record counted {
              neighbors_cache = Single.set counted.neighbors_cache (respond src.cfg ns later);
            },
            answer ns,
          )
        ]
  ]
]

-- The loop of NeighborsSummary
unfoldable pub with_source_id : Source → List Neighbor → List Neighbor
with_source_id src [] = []
with_source_id src (n ∷ ns) = record n { route_server_id = src.cfg.id } ∷ with_source_id src ns

-- BgplgdSource.NeighborsSummary
unfoldable pub neighbors_summary :
    Source → Answer (List Neighbor) → ℤ → ℤ → Source × Answer (List Neighbor)
unfolding Single.get Single.set with_source_id
neighbors_summary src shown now later = elim (Single.get src.neighbors_summary_cache now) [
  | some response ↦ (src, answer response.content)
  | none ↦ elim shown [
    | failed e ↦ (src, failed e)
    | answer nb ↦
        let ns = with_source_id src nb in
        (
          record src {
            neighbors_summary_cache =
                Single.set src.neighbors_summary_cache (respond src.cfg ns later);
          },
          answer ns,
        )
  ]
]

-- BgplgdSource.ExpireCaches: of the caches, only that of the received routes
unfoldable pub expire_caches : Source → ℤ → Source × ℕ
unfolding expire
expire_caches src now =
    let (cache, total_expired) = expire src.routes_received_cache now in
    (record src { routes_received_cache = cache }, total_expired)
