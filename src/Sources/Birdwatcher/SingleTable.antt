-- ===== src/Sources/Birdwatcher/SingleTable.antt =====
-- pkg/sources/birdwatcher/source_singletable.go: the neighbors, and the routes of a neighbor and
-- of all neighbors.
use alice_lg.Common.{
  Bool, true, false, ◌&&◌, not, none, some, List, [], ◌∷◌, ◌++◌, nat_eq, list_eq, if◌then◌else◌,
}
use alice_lg.Common.Ints.{ℤ}
use alice_lg.Common.Texts.{Text, codes}
use alice_lg.Api.Route.{Route, RoutesResponse, merge}
use alice_lg.Api.Neighbor.{Neighbor}
use alice_lg.Caches.Neighbors
use alice_lg.Caches.Neighbors.{Response}
use alice_lg.Caches.Routes
use alice_lg.Sources.Birdwatcher.{
  Outcome, done, failed, panicked, ◌>>=◌, Config, Source, Fetched, Client, ask,
  fetch_required_routes,
}

-- The parts of the response of fetchRequiredRoutes
abbrev pub imported_of : Response RoutesResponse → RoutesResponse
imported_of r = record { imported = r.content.imported; filtered = []; not_exported = [] }

abbrev pub filtered_of : Response RoutesResponse → RoutesResponse
filtered_of r = record { imported = []; filtered = r.content.filtered; not_exported = [] }

abbrev is_empty : Text → Bool
is_empty [] = true
is_empty (_ ∷ _) = false

-- Neighbors; `shown` is what the server gives, and `ttl` the TTL in the meta data of the response.
-- NeighborsSummary is the same.
unfoldable pub neighbors :
    Source → Outcome (List Neighbor) → ℤ → ℤ → Source × Outcome (List Neighbor)
neighbors src shown ttl now = elim (Neighbors.get src.neighbors_cache now) [
  | some response ↦ (src, done response.content)
  | none ↦ elim shown [
    | failed e ↦ (src, failed e)
    | panicked ↦ (src, panicked)
    | done ns ↦ (
      record src {
        neighbors_cache = Neighbors.set src.neighbors_cache (record { ttl = ttl; content = ns });
      },
      done ns,
    )
  ]
]

module _ (client : Client) where
  -- fetchReceivedRoutes
  unfoldable pub fetch_received_routes : Text → Outcome Fetched
  fetch_received_routes neighbor_id = ask client (codes "/routes/protocol/" ++ neighbor_id)

  -- fetchFilteredRoutes
  unfoldable pub fetch_filtered_routes : Text → Outcome Fetched
  fetch_filtered_routes neighbor_id = ask client (codes "/routes/filtered/" ++ neighbor_id)

  -- fetchNotExportedRoutes
  unfoldable pub fetch_not_exported_routes : Text → Outcome Fetched
  fetch_not_exported_routes neighbor_id = ask client (codes "/routes/noexport/" ++ neighbor_id)

  -- Routes
  unfoldable pub routes :
      (List Route → List Route) → Source → Text → ℤ → ℤ → Source × Outcome RoutesResponse
  routes sort src neighbor_id now later =
      let (after, res) =
        fetch_required_routes sort src neighbor_id (fetch_received_routes neighbor_id)
          (fetch_filtered_routes neighbor_id) now later in
      (
        after,
        res >>= λ r. fetch_not_exported_routes neighbor_id >>= λ n. done (record {
          imported = r.content.imported;
          filtered = r.content.filtered;
          not_exported = n.routes;
        }),
      )

  -- The common body of RoutesReceived and RoutesFiltered: the cache, and then the server
  unfoldable pub routes_part :
      (Response RoutesResponse → RoutesResponse)
      → (List Route → List Route)
      → Source
      → Text
      → ℤ
      → ℤ
      → ℤ
      → Source × Outcome RoutesResponse
  routes_part part sort src neighbor_id checked_at now later =
      let (cache, hit) = Routes.get src.routes_required_cache neighbor_id checked_at in
      let looked = record src { routes_required_cache = cache } in
      elim hit [
        | some response ↦ (looked, done (part response))
        | none ↦
            let (after, res) =
              fetch_required_routes sort looked neighbor_id (fetch_received_routes neighbor_id)
                (fetch_filtered_routes neighbor_id) now later in
            (after, res >>= λ r. done (part r))
      ]

  -- RoutesReceived
  unfoldable pub routes_received :
      (List Route → List Route) → Source → Text → ℤ → ℤ → ℤ → Source × Outcome RoutesResponse
  routes_received = routes_part imported_of

  -- RoutesFiltered
  unfoldable pub routes_filtered :
      (List Route → List Route) → Source → Text → ℤ → ℤ → ℤ → Source × Outcome RoutesResponse
  routes_filtered = routes_part filtered_of

  -- RoutesNotExported
  unfoldable pub routes_not_exported : Source → Text → ℤ → ℤ → Source × Outcome RoutesResponse
  routes_not_exported src neighbor_id now later =
      let (cache, hit) = Routes.get src.routes_not_exported_cache neighbor_id now in
      let looked = record src { routes_not_exported_cache = cache } in
      elim hit [
        | some response ↦ (looked, done response.content)
        | none ↦ elim (fetch_not_exported_routes neighbor_id) [
          | failed e ↦ (looked, failed e)
          | panicked ↦ (looked, panicked)
          | done f ↦
              let content : RoutesResponse = record {
                imported = [];
                filtered = [];
                not_exported = f.routes;
              } in
              (
                record looked {
                  routes_not_exported_cache =
                      Routes.set cache neighbor_id (record { ttl = f.ttl; content = content })
                        later;
                },
                done content,
              )
        ]
      ]

  -- fetchAllRoutesTable
  unfoldable pub fetch_all_routes_table : Text → Outcome RoutesResponse
  fetch_all_routes_table main_table = do
    imported ← ask client (codes "/routes/table/" ++ main_table)
    filtered ← ask client (codes "/routes/table/" ++ main_table ++ codes "/filtered")
    done (record { imported = imported.routes; filtered = filtered.routes; not_exported = [] })

  -- AllRoutes
  unfoldable pub all_routes : Config → Outcome RoutesResponse
  all_routes cfg =
      if not (is_empty cfg.main_table4) && not (is_empty cfg.main_table6)
      then (do
        res4 ← fetch_all_routes_table cfg.main_table4
        res6 ← fetch_all_routes_table cfg.main_table6
        done (merge res4 res6))
      else fetch_all_routes_table cfg.main_table
