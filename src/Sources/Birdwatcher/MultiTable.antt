-- ===== src/Sources/Birdwatcher/MultiTable.antt =====
-- pkg/sources/birdwatcher/source_multitable.go: the names of the pipes, and the routes of a
-- neighbor. What the client gives for a URL is an argument.
pub mod Dump
pub mod Counts
pub mod Conservation
pub mod Workers
pub mod Shown
pub mod Fetches
pub mod Complete
use alice_lg.Common.{
  ℕ, ◌-◌, Bool, true, false, ◌||◌, Option, none, some, List, [], ◌∷◌, ◌++◌, length, drop, leb,
  nat_eq, list_eq, list_beq, if◌then◌else◌,
}
use alice_lg.Common.Assoc
use alice_lg.Common.Assoc.{Assoc}
use alice_lg.Common.Ints.{ℤ, pos}
use alice_lg.Common.Texts.{Text, codes, has_prefix}
use alice_lg.Api.Route.{Route, RoutesResponse}
use alice_lg.Caches.Neighbors.{Response}
use alice_lg.Caches.Routes
use alice_lg.Sources.Birdwatcher.{
  Outcome, done, failed, panicked, ◌>>=◌, Config, Source, Protocol, Protocols, Fetched, Client, ask,
  fetch_required_routes,
}

-- s[n:]; `none` is a panic.
abbrev pub from : ℕ → Text → Option Text
from n s = if leb n (length s) then some (drop n s) else none

-- strings.HasSuffix s suffix
abbrev pub has_suffix : Text → Text → Bool
has_suffix s suffix =
    if leb (length suffix) (length s)
    then list_beq (drop (length s - length suffix) s) suffix
    else false

abbrev pub is_empty : Text → Bool
is_empty [] = true
is_empty (_ ∷ _) = false

-- getMasterPipeName
unfoldable pub get_master_pipe_name : Config → Text → Text
get_master_pipe_name config table =
    if has_prefix table config.peer_table_prefix
    then config.pipe_protocol_prefix ++ drop (length config.peer_table_prefix) table
    else []

-- isAltSession
unfoldable pub is_alt_session : Config → Text → Bool
is_alt_session config pipe =
    if is_empty config.alt_pipe_protocol_suffix
    then false
    else has_suffix pipe config.alt_pipe_protocol_suffix

-- getAltPipeName; `none` is a panic.
unfoldable pub get_alt_pipe_name : Config → Text → Option Text
get_alt_pipe_name config pipe = elim (from (length config.pipe_protocol_prefix) pipe) [
  | none ↦ none
  | some rest ↦ some (config.alt_pipe_protocol_prefix ++ rest)
]

abbrev invalid_neighbor : Text
invalid_neighbor = codes "invalid Neighbor"

module _ (client : Client) (config : Config) where
  -- The URL of the received routes
  unfoldable pub received_url : Protocol → Text
  received_url p =
      if is_alt_session config (get_master_pipe_name config p.table) || config.peer_table_only
      then codes "/routes/table/" ++ p.table ++ codes "/peer/" ++ p.neighbor_address
      else codes "/routes/peer/" ++ p.neighbor_address

  -- fetchReceivedRoutes
  unfoldable pub fetch_received_routes : Protocols → Text → Outcome Fetched
  fetch_received_routes protocols neighbor_id = elim (Assoc.get neighbor_id protocols) [
    | none ↦ failed invalid_neighbor
    | some p ↦ ask client (received_url p)
  ]

  -- The pipe whose filtered routes belong to a table; `none` is a panic.
  unfoldable pub filter_pipe : Text → Option Text
  filter_pipe pipe_name =
      if is_alt_session config pipe_name then get_alt_pipe_name config pipe_name else some pipe_name

  -- The second stage of fetchFilteredRoutes. (The order of the routes, which are sorted where the
  -- details are dropped, is that of `sort`.)
  unfoldable pub fetch_pipe_filtered :
      (List Route → List Route) → Bool → Text → Text → Fetched → Outcome Fetched
  fetch_pipe_filtered sort keep_details table pipe_name stage1 = elim (filter_pipe pipe_name) [
    | none ↦ panicked
    | some pipe ↦ do
      stage2 ← ask client (codes "/routes/pipe/filtered?table=" ++ table ++ codes "&pipe=" ++ pipe)
      done (record {
        ttl = stage1.ttl;
        routes =
            if keep_details
            then stage1.routes ++ stage2.routes
            else sort (stage1.routes ++ stage2.routes);
      })
  ]

  -- fetchFilteredRoutes; the zero of the time in `&api.Meta{}` is 0.
  unfoldable pub fetch_filtered_routes :
      (List Route → List Route) → Protocols → Text → Bool → Outcome Fetched
  fetch_filtered_routes sort protocols neighbor_id keep_details =
      elim (Assoc.get neighbor_id protocols) [
        | none ↦ failed invalid_neighbor
        | some p ↦
            if config.peer_table_only
            then done (record { ttl = pos 0; routes = [] })
            else ask client (codes "/routes/filtered/" ++ neighbor_id) >>= λ stage1.
                if is_empty (get_master_pipe_name config p.table)
                then done stage1
                else fetch_pipe_filtered sort keep_details p.table
                    (get_master_pipe_name config p.table) stage1
      ]

  -- fetchNotExportedRoutes: after an error of GetEndpoint, the body is read all the same, which
  -- panics as there is none; an error of the parser is returned. The protocols come with the TTL
  -- of their response.
  unfoldable pub fetch_not_exported_routes : Outcome (ℤ × Protocols) → Text → Outcome Fetched
  fetch_not_exported_routes fetched neighbor_id = fetched >>= λ answer.
      elim (Assoc.get neighbor_id answer.1) [
        | none ↦ failed (codes "invalid neighbor")
        | some p ↦
            if is_alt_session config (get_master_pipe_name config p.table)
            then done (record { ttl = answer.0; routes = [] })
            else elim (client (codes "/routes/noexport/" ++ get_master_pipe_name config p.table)) [
              | done parsed ↦ parsed
              | failed e ↦ panicked
              | panicked ↦ panicked
            ]
      ]

-- The parts of the response of fetchRequiredRoutes
abbrev pub imported_of : Response RoutesResponse → RoutesResponse
imported_of r = record { imported = r.content.imported; filtered = []; not_exported = [] }

abbrev pub filtered_of : Response RoutesResponse → RoutesResponse
filtered_of r = record { imported = []; filtered = r.content.filtered; not_exported = [] }

module _ (sort : List Route → List Route) (client : Client) (src : Source)
    (fetched : Outcome (ℤ × Protocols)) (neighbor_id : Text) where
  -- The required routes once the protocols are fetched
  unfoldable pub required : Source → ℤ → ℤ → Source × Outcome (Response RoutesResponse)
  required looked now later = elim fetched [
    | failed e ↦ (looked, failed e)
    | panicked ↦ (looked, panicked)
    | done answer ↦
        fetch_required_routes sort looked neighbor_id
          (fetch_received_routes client src.config answer.1 neighbor_id)
          (fetch_filtered_routes client src.config sort answer.1 neighbor_id true) now later
  ]

  -- The common body of RoutesReceived and RoutesFiltered: the cache, and then the server
  unfoldable pub routes_part :
      (Response RoutesResponse → RoutesResponse) → ℤ → ℤ → ℤ → Source × Outcome RoutesResponse
  routes_part part checked_at now later =
      let (cache, hit) = Routes.get src.routes_required_cache neighbor_id checked_at in
      let looked = record src { routes_required_cache = cache } in
      elim hit [
        | some response ↦ (looked, done (part response))
        | none ↦ let (after, res) = required looked now later in (after, res >>= λ r. done (part r))
      ]

  -- RoutesReceived
  unfoldable pub routes_received : ℤ → ℤ → ℤ → Source × Outcome RoutesResponse
  routes_received = routes_part imported_of

  -- RoutesFiltered
  unfoldable pub routes_filtered : ℤ → ℤ → ℤ → Source × Outcome RoutesResponse
  routes_filtered = routes_part filtered_of

  -- Routes; the protocols are fetched once more for the routes that are not exported.
  unfoldable pub routes : Outcome (ℤ × Protocols) → ℤ → ℤ → Source × Outcome RoutesResponse
  routes fetched_again now later =
      let (after, res) = required src now later in
      (
        after,
        res >>= λ r. fetch_not_exported_routes client src.config fetched_again neighbor_id >>= λ n.
            done (record {
              imported = r.content.imported;
              filtered = r.content.filtered;
              not_exported = n.routes;
            }),
      )

  -- RoutesNotExported
  unfoldable pub routes_not_exported : ℤ → ℤ → Source × Outcome RoutesResponse
  routes_not_exported now later =
      let (cache, hit) = Routes.get src.routes_not_exported_cache neighbor_id now in
      let looked = record src { routes_not_exported_cache = cache } in
      elim hit [
        | some response ↦ (looked, done response.content)
        | none ↦ elim (fetch_not_exported_routes client src.config fetched neighbor_id) [
          | failed e ↦ (looked, failed e)
          | panicked ↦ (looked, panicked)
          | done f ↦
              let content : RoutesResponse = record {
                imported = [];
                filtered = [];
                not_exported = f.routes;
              } in
              (
                record looked {
                  routes_not_exported_cache =
                      Routes.set cache neighbor_id (record { ttl = f.ttl; content = content })
                        later;
                },
                done content,
              )
        ]
      ]
