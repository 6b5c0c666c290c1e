-- ===== src/Sources/Birdwatcher/MultiTable/Dump.antt =====
-- pkg/sources/birdwatcher/source_multitable.go: the routes of all neighbors, which 42 workers fetch.
-- A run of the workers is a list of moves: a worker takes the next request from the queue, or one of
-- the requests that workers have taken is answered. (The channel of the results keeps their order,
-- so that an answer and its collection are one move.) A call that fails is logged and gives no
-- routes; a panic in a worker ends the program.
use alice_lg.Common.{
  ℕ, zero, suc, ltb, length, false, Option, none, some, List, [], ◌∷◌, ◌++◌, nat_eq, list_eq,
  if◌then◌else◌,
}
use alice_lg.Common.Texts.{Text, codes}
use alice_lg.Api.Route.{Route, RoutesResponse}
use alice_lg.Sources.Birdwatcher.{
  Outcome, done, failed, panicked, ◌>>=◌, Config, Protocol, Protocols, Fetched, Client, ask,
  filter_protocols, filter_routes_by_peer_or_learnt_from,
}
use alice_lg.Sources.Birdwatcher.MultiTable.{fetch_received_routes, fetch_filtered_routes}

-- The routes of an answer; those of an error are nil. `none` is a panic.
abbrev pub routes_or_nil : Outcome Fetched → Option (List Route)
routes_or_nil (done f) = some f.routes
routes_or_nil (failed e) = some []
routes_or_nil panicked = none

-- The requests in the queue, those that workers have taken, and the routes collected so far
abbrev pub Pool : Type 0
Pool = Protocols × Protocols × List Route

-- The next thing that happens: a worker takes a request, or a taken one is answered.
pub data Move : Type 0 where
  take : Move
  answer : ℕ → Move

-- What the workers give: the routes, or that they still run, or a panic
pub data Collected : Type 0 where
  collected : List Route → Collected
  still_running crashed : Collected

-- An element of a list, and the others
unfoldable pub take_at : ℕ → Protocols → Option ((Text × Protocol) × Protocols)
take_at i [] = none
take_at zero (p ∷ ps) = some (p, ps)
take_at (suc i) (p ∷ ps) = elim (take_at i ps) [ none ↦ none | some (q, rest) ↦ some (q, p ∷ rest) ]

-- The answer to a taken request; `none` is a panic.
unfoldable pub answered :
    (Text × Protocol → Option (List Route))
    → Option ((Text × Protocol) × Protocols)
    → Pool
    → Option Pool
answered work none pool = some pool
answered work (some (p, taken)) (queue, _, results) = elim (work p) [
  | none ↦ none
  | some r ↦ some (queue, taken, results ++ r)
]

-- A move; one that is not possible changes nothing.
unfoldable pub move : (Text × Protocol → Option (List Route)) → Move → Pool → Option Pool
move work take ([], taken, results) = some ([], taken, results)
move work take (p ∷ queue, taken, results) =
    if ltb (length taken) 42
    then some (queue, p ∷ taken, results)
    else some (p ∷ queue, taken, results)
move work (answer i) (queue, taken, results) =
    answered work (take_at i taken) (queue, taken, results)

-- The end of the workers: nothing is left in the queue, and no worker has a request.
unfoldable pub ended : Pool → Collected
ended ([], [], results) = collected results
ended ([], p ∷ taken, results) = still_running
ended (p ∷ queue, taken, results) = still_running

-- A run of the workers
unfoldable pub run : (Text × Protocol → Option (List Route)) → List Move → Pool → Collected
run work [] pool = ended pool
run work (m ∷ moves) pool = elim (move work m pool) [
  | none ↦ crashed
  | some next ↦ run work moves next
]

-- A response, once the workers have ended; `none` is that they still run.
abbrev pub respond : (List Route → RoutesResponse) → Collected → Outcome (Option RoutesResponse)
respond f (collected routes) = done (some (f routes))
respond f still_running = done none
respond f crashed = panicked

module _ (sort : List Route → List Route) (client : Client) (config : Config) where
  -- A worker of fetchAllRoutesFromPeerTable
  unfoldable pub receive : Protocols → Text × Protocol → Option (List Route)
  receive protocols p = routes_or_nil (fetch_received_routes client config protocols p.0)

  -- A worker of AllRoutes; the address that a route is learnt from is that of the neighbor, if the
  -- protocol has none.
  unfoldable pub filter_of : Protocols → Text × Protocol → Option (List Route)
  filter_of protocols p =
      let learnt_from : Text = elim p.1.learnt_from [
        | none ↦ p.1.neighbor_address
        | some from ↦ from
      ] in
      elim (routes_or_nil (fetch_filtered_routes client config sort protocols p.0 false)) [
        | none ↦ none
        | some filtered ↦ some (
            filter_routes_by_peer_or_learnt_from sort filtered (some p.1.neighbor_address)
              (some learnt_from))
      ]

module _ (moves : List Move) (sort : List Route → List Route) (client : Client)
    (config : Config) where
  -- fetchAllRoutesFromPeerTable
  unfoldable pub fetch_all_routes_from_peer_table :
      Outcome Protocols → Outcome (Option RoutesResponse)
  fetch_all_routes_from_peer_table fetched = fetched >>= λ protocols.
      respond (λ routes. record { imported = routes; filtered = []; not_exported = [] })
        (run (receive sort client config protocols) moves
          (filter_protocols protocols (codes "BGP"), [], []))

  -- AllRoutes, where there are not only peer tables
  unfoldable pub fetch_all_routes : Outcome Protocols → Outcome (Option RoutesResponse)
  fetch_all_routes fetched = fetched >>= λ protocols.
      ask client (codes "/routes/table/" ++ config.main_table) >>= λ res.
      respond (λ filtered. record { imported = res.routes; filtered = filtered; not_exported = [] })
        (run (filter_of sort client config protocols) moves
          (filter_protocols protocols (codes "BGP"), [], []))

  -- AllRoutes
  unfoldable pub all_routes : Outcome Protocols → Outcome (Option RoutesResponse)
  all_routes fetched =
      if config.peer_table_only
      then fetch_all_routes_from_peer_table fetched
      else fetch_all_routes fetched
