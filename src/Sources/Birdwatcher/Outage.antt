-- ===== src/Sources/Birdwatcher/Outage.antt =====
-- The requests for the routes of a neighbor over several tables, while something fails.
use alice_lg.Common.{
  ap, ◌∙◌, Option, if◌then◌else◌, ◌≡◌, refl, true, false, none, some, List, [], ◌++◌, nat_eq,
  list_eq,
}
use alice_lg.Common.Assoc
use alice_lg.Common.Assoc.{put, get-put_self}
use alice_lg.Common.Ints.{ℤ}
use alice_lg.Common.Texts.{Text, codes}
use alice_lg.Api.Route.{Route, RoutesResponse}
use alice_lg.Caches.Neighbors.{Response}
use alice_lg.Sources.Birdwatcher.{
  Outcome, done, failed, panicked, Config, Source, Protocol, Protocols, Fetched, Client, ask,
  fetch_required_routes,
}
use alice_lg.Sources.Birdwatcher.MultiTable.{
  get_master_pipe_name, is_alt_session, received_url, fetch_received_routes, fetch_filtered_routes,
  fetch_not_exported_routes, imported_of, filtered_of, required, routes_part, routes_received,
  routes_filtered, routes_not_exported,
}
use alice_lg.Sources.Birdwatcher.Requests.{miss_lem}

refused_lem :
    (sort : List Route → List Route) (src : Source) (id e : Text) (filtered : Outcome Fetched)
    (now later : ℤ)
    → Assoc.get id src.routes_required_cache.responses ≡ none
    → (fetch_required_routes sort src id (failed e) filtered now later).1 ≡ failed e
unfolding fetch_required_routes
refused_lem sort src id e filtered now later missing =
    rw (fetch_required_routes, miss_lem src.routes_required_cache id now missing) refl

unreachable_lem :
    (client : Client) (config : Config) (id e : Text) (protocols : Protocols) (p : Protocol)
    → ((url : Text) → ask client url ≡ failed e)
    → Assoc.get id protocols ≡ some p
    → fetch_received_routes client config protocols id ≡ failed e
unfolding fetch_received_routes
unreachable_lem client config id e protocols p down known =
    rw (fetch_received_routes, known) (down (received_url client config p))

-- What the fetch of the routes that are not exported makes of the answer to its request
abbrev read_body : Outcome (Outcome Fetched) → Outcome Fetched
read_body (done parsed) = parsed
read_body (failed e) = panicked
read_body panicked = panicked

-- The fetch once the protocol is looked up
abbrev of_protocol : Client → Config → ℤ → Option Protocol → Outcome Fetched
of_protocol client config ttl none = failed (codes "invalid neighbor")
of_protocol client config ttl (some p) =
    if is_alt_session config (get_master_pipe_name config p.table)
    then done (record { ttl = ttl; routes = [] })
    else read_body (client (codes "/routes/noexport/" ++ get_master_pipe_name config p.table))

not_exported_lem :
    (client : Client) (config : Config) (id : Text) (answer : ℤ × Protocols) (p : Protocol)
    (asked : Outcome (Outcome Fetched))
    → Assoc.get id answer.1 ≡ some p
    → is_alt_session config (get_master_pipe_name config p.table) ≡ false
    → client (codes "/routes/noexport/" ++ get_master_pipe_name config p.table) ≡ asked
    → fetch_not_exported_routes client config (done answer) id ≡ read_body asked
unfolding fetch_not_exported_routes
not_exported_lem client config id answer p asked known normal h =
    ap (of_protocol client config answer.0) known
    ∙ ap
        (λ b.
          if b
          then done (record { ttl = answer.0; routes = [] })
          else read_body
              (client (codes "/routes/noexport/" ++ get_master_pipe_name config p.table)))
        normal
    ∙ ap read_body h

module _ (sort : List Route → List Route) (src : Source) (id e : Text) (checked_at now later : ℤ)
    (missing : Assoc.get id src.routes_required_cache.responses ≡ none)
    (missing' : Assoc.get id src.routes_not_exported_cache.responses ≡ none) where
  -- The requests for the two parts of the required routes, while the client fails
  parts_fail :
      (client : Client) (answer : ℤ × Protocols) (p : Protocol)
      (part : Response RoutesResponse → RoutesResponse)
      → ((url : Text) → ask client url ≡ failed e)
      → Assoc.get id answer.1 ≡ some p
      → (routes_part sort client src (done answer) id part checked_at now later).1 ≡ failed e
  unfolding routes_part required
  parts_fail client answer p part down known =
      rw (routes_part, miss_lem src.routes_required_cache id checked_at missing)
        (rw
          (
            required,
            unreachable_lem client src.config id e answer.1 p down known,
            miss_lem src.routes_required_cache id checked_at missing,
          )
          (rw
            (refused_lem sort src id e
              (fetch_filtered_routes client src.config sort answer.1 id true) now later missing)
            refl))

  part_without_protocols :
      (client : Client) (part : Response RoutesResponse → RoutesResponse)
      → (routes_part sort client src (failed e) id part checked_at now later).1 ≡ failed e
  unfolding routes_part required
  part_without_protocols client part =
      rw (routes_part, miss_lem src.routes_required_cache id checked_at missing) refl

  -- The request for the routes that are not exported, once the fetch has ended
  fails_too :
      (client : Client) (fetched : Outcome (ℤ × Protocols))
      → fetch_not_exported_routes client src.config fetched id ≡ failed e
      → (routes_not_exported sort client src fetched id now later).1 ≡ failed e
  unfolding routes_not_exported
  fails_too client fetched h =
      rw (routes_not_exported, miss_lem src.routes_not_exported_cache id now missing') (rw h refl)

  panics_too :
      (client : Client) (fetched : Outcome (ℤ × Protocols))
      → fetch_not_exported_routes client src.config fetched id ≡ panicked
      → (routes_not_exported sort client src fetched id now later).1 ≡ panicked
  unfolding routes_not_exported
  panics_too client fetched h =
      rw (routes_not_exported, miss_lem src.routes_not_exported_cache id now missing') (rw h refl)

  -- For a neighbor without cached responses: if the protocols can not be fetched, the three requests
  -- for the received, filtered and not exported routes return the error. If the protocols are
  -- fetched, know the neighbor, and its session is no alternative one: where the requests of its
  -- routes fail after that, the first two return the error, but the third panics; where only the
  -- bodies can not be parsed, all three return the error.
  pub outage :
      (client : Client) (answer : ℤ × Protocols) (p : Protocol)
      → Assoc.get id answer.1 ≡ some p
      → is_alt_session src.config (get_master_pipe_name src.config p.table) ≡ false
      → let down : Client = λ url. failed e in
        let broken : Client = λ url. done (failed e) in
        (((routes_received sort client src (failed e) id checked_at now later).1 ≡ failed e)
          × ((routes_filtered sort client src (failed e) id checked_at now later).1 ≡ failed e)
          × ((routes_not_exported sort client src (failed e) id now later).1 ≡ failed e))
        × (((routes_received sort down src (done answer) id checked_at now later).1 ≡ failed e)
            × ((routes_filtered sort down src (done answer) id checked_at now later).1 ≡ failed e)
            × ((routes_not_exported sort down src (done answer) id now later).1 ≡ panicked))
        × (((routes_received sort broken src (done answer) id checked_at now later).1 ≡ failed e)
            × ((routes_filtered sort broken src (done answer) id checked_at now later).1 ≡ failed e)
            × ((routes_not_exported sort broken src (done answer) id now later).1 ≡ failed e))
  unfolding routes_received routes_filtered fetch_not_exported_routes
  outage client answer p known normal = (
    (
      part_without_protocols client imported_of,
      part_without_protocols client filtered_of,
      fails_too client (failed e) refl,
    ),
    (
      parts_fail (λ url. failed e) answer p imported_of (λ url. refl) known,
      parts_fail (λ url. failed e) answer p filtered_of (λ url. refl) known,
      panics_too (λ url. failed e) (done answer)
          (not_exported_lem (λ url. failed e) src.config id answer p (failed e) known normal refl),
    ),
    (
      parts_fail (λ url. done (failed e)) answer p imported_of (λ url. refl) known,
      parts_fail (λ url. done (failed e)) answer p filtered_of (λ url. refl) known,
      fails_too (λ url. done (failed e)) (done answer)
          (not_exported_lem (λ url. done (failed e)) src.config id answer p (done (failed e)) known
            normal refl),
    ),
  )
