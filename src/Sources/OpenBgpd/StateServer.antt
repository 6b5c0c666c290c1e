-- ===== src/Sources/OpenBgpd/StateServer.antt =====
-- pkg/sources/openbgpd/state_server_source.go: the source over the state server. Its methods differ
-- from those over bgplgd in the URLs they ask, in ExpireCaches and in Status.
use alice_lg.Common.{ℕ, List}
use alice_lg.Common.Ints.{ℤ}
use alice_lg.Common.Texts.{Text}
use alice_lg.Api.Neighbor.{Neighbor}
use alice_lg.Api.Route.{Route, RoutesResponse}
use alice_lg.Caches.Routes.{expire}
use alice_lg.Sources.Answers.{Answer}
use alice_lg.Sources.OpenBgpd
use alice_lg.Sources.OpenBgpd.{Config, Source}

-- NewStateServerSource
unfoldable pub new_source : Config → Source
new_source = OpenBgpd.new_source

-- StateServerSource.Routes
unfoldable pub routes : Source → Text → Answer (List Route) → ℤ → ℤ → Source × Answer RoutesResponse
routes = OpenBgpd.routes

-- StateServerSource.RoutesReceived
unfoldable pub routes_received :
    Source → Text → Answer (List Route) → ℤ → ℤ → Source × Answer RoutesResponse
routes_received = OpenBgpd.routes_received

-- StateServerSource.RoutesFiltered
unfoldable pub routes_filtered :
    Source → Text → Answer (List Route) → ℤ → ℤ → Source × Answer RoutesResponse
routes_filtered = OpenBgpd.routes_filtered

-- StateServerSource.RoutesNotExported
unfoldable pub routes_not_exported : Source → Text → RoutesResponse
routes_not_exported = OpenBgpd.routes_not_exported

-- StateServerSource.AllRoutes
unfoldable pub all_routes : Source → Answer (List Route) → Answer RoutesResponse
all_routes = OpenBgpd.all_routes

-- StateServerSource.Neighbors
unfoldable pub neighbors :
    Source
    → Answer (List Neighbor)
    → (Text → Answer (List Route))
    → (ℕ → ℤ)
    → ℤ
    → ℤ
    → Source × Answer (List Neighbor)
neighbors = OpenBgpd.neighbors

-- StateServerSource.NeighborsSummary
unfoldable pub neighbors_summary :
    Source → Answer (List Neighbor) → ℤ → ℤ → Source × Answer (List Neighbor)
neighbors_summary = OpenBgpd.neighbors_summary

-- StateServerSource.ExpireCaches: of the caches, only that of both parts of the routes
unfoldable pub expire_caches : Source → ℤ → Source × ℕ
expire_caches src now =
    let (cache, total_expired) = expire src.routes_cache now in
    (record src { routes_cache = cache }, total_expired)
