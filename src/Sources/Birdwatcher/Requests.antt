-- ===== src/Sources/Birdwatcher/Requests.antt =====
-- The requests for the routes of a neighbor over several tables, one after the other.
use alice_lg.Common.{◌≡◌, refl, true, false, none, some, List, [], nat_eq, list_eq, arith}
use alice_lg.Common.Assoc
use alice_lg.Common.Assoc.{put, get-put_self}
use alice_lg.Common.Ints.{ℤ, ltb_ℤ}
use alice_lg.Common.Texts.{Text}
use alice_lg.Api.Route.{Route, RoutesResponse}
use alice_lg.Caches.Neighbors.{Response}
use alice_lg.Caches.Routes
use alice_lg.Caches.Routes.{RoutesCache}
use alice_lg.Caches.Routes.Eviction.{set_on}
use alice_lg.Sources.Birdwatcher.{
  Outcome, done, Source, Protocols, Fetched, Client, deduplicate, fetch_required_routes,
}
use alice_lg.Sources.Birdwatcher.MultiTable.{
  fetch_received_routes, fetch_filtered_routes, imported_of, filtered_of, required, routes_part,
  routes_received, routes_filtered,
}

-- A read of a key that an enabled cache does not have
pub miss_lem :
    {A : Type 0} (c : RoutesCache A) (id : Text) (now : ℤ)
    → Assoc.get id c.responses ≡ none
    → Routes.get c id now ≡ (c, none)
unfolding Routes.get
miss_lem c id now missing = ground (arith, missing)

-- A read of a valid response
known_lem :
    {A : Type 0} (c : RoutesCache A) (id : Text) (r : Response A) (t : ℤ)
    → c.disabled ≡ false
    → Assoc.get id c.responses ≡ some r
    → ltb_ℤ r.ttl t ≡ false
    → (Routes.get c id t).1 ≡ some r
unfolding Routes.get
known_lem c id r t on known valid = ground (arith, on, known, valid)

room_on :
    {A : Type 0} (c : RoutesCache A) (now : ℤ) → (Routes.make_room c now).disabled ≡ c.disabled
unfolding Routes.make_room
room_on c now = ground arith

-- A read of what has just been written
hit_lem :
    {A : Type 0} (c : RoutesCache A) (id : Text) (r : Response A) (later t : ℤ)
    → c.disabled ≡ false
    → ltb_ℤ r.ttl t ≡ false
    → (Routes.get (Routes.set c id r later) id t).1 ≡ some r
hit_lem c id r later t on valid =
    known_lem (Routes.set c id r later) id r t (rw (set_on c id r later on, room_on c later) on)
      (rw (set_on c id r later on) (get-put_self id r (Routes.make_room c later).responses)) valid

-- A request that the cache answers
second_lem :
    (sort : List Route → List Route) (client : Client) (src : Source)
    (fetched : Outcome (ℤ × Protocols)) (id : Text) (r : Response RoutesResponse)
    (part : Response RoutesResponse → RoutesResponse) (t : ℤ)
    → (Routes.get src.routes_required_cache id t).1 ≡ some r
    → (routes_part sort client src fetched id part t t t).1 ≡ done (part r)
unfolding routes_part
second_lem sort client src fetched id r part t hit = rw (routes_part, hit) refl

module _ (sort : List Route → List Route) (client : Client) (src : Source) (id : Text)
    (missing : Assoc.get id src.routes_required_cache.responses ≡ none) where
  fetch_lem :
      (received filtered : Fetched) (now later : ℤ)
      → fetch_required_routes sort src id (done received) (done filtered) now later ≡ (
        record src {
          routes_required_cache =
              Routes.set src.routes_required_cache id
                (record {
                  ttl = received.ttl;
                  content = deduplicate sort received.routes filtered.routes;
                })
                later;
        },
        done (record {
          ttl = received.ttl;
          content = deduplicate sort received.routes filtered.routes;
        }),
      )
  unfolding fetch_required_routes
  fetch_lem received filtered now later =
      rw (fetch_required_routes, miss_lem src.routes_required_cache id now missing)
        (rw (miss_lem src.routes_required_cache id now missing) refl)

  part_lem :
      (part : Response RoutesResponse → RoutesResponse) (answer : ℤ × Protocols)
      (received filtered : Fetched) (checked_at now later : ℤ)
      → fetch_received_routes client src.config answer.1 id ≡ done received
      → fetch_filtered_routes client src.config sort answer.1 id true ≡ done filtered
      → routes_part sort client src (done answer) id part checked_at now later ≡ (
        record src {
          routes_required_cache =
              Routes.set src.routes_required_cache id
                (record {
                  ttl = received.ttl;
                  content = deduplicate sort received.routes filtered.routes;
                })
                later;
        },
        done (
            part (record {
              ttl = received.ttl;
              content = deduplicate sort received.routes filtered.routes;
            })),
      )
  unfolding routes_part required
  part_lem part answer received filtered checked_at now later got got' =
      rw (routes_part, miss_lem src.routes_required_cache id checked_at missing)
        (rw (required, got, got', miss_lem src.routes_required_cache id checked_at missing)
          (rw (fetch_lem received filtered now later) refl))

  -- The first request for the received routes of a neighbor and a request for its filtered routes
  -- that follows while the response is valid answer with the two parts of one split, although
  -- the second may find other protocols and another server: it asks neither.
  pub requests_agree :
      (client' : Client) (answer : ℤ × Protocols) (fetched' : Outcome (ℤ × Protocols))
      (received filtered : Fetched) (checked_at now later t : ℤ)
      → src.routes_required_cache.disabled ≡ false
      → fetch_received_routes client src.config answer.1 id ≡ done received
      → fetch_filtered_routes client src.config sort answer.1 id true ≡ done filtered
      → ltb_ℤ received.ttl t ≡ false
      → let split = deduplicate sort received.routes filtered.routes in
        let first = routes_received sort client src (done answer) id checked_at now later in
        (first.1 ≡ done (record { imported = split.imported; filtered = []; not_exported = [] }))
        × ((routes_filtered sort client' first.0 fetched' id t t t).1
            ≡ done (record { imported = []; filtered = split.filtered; not_exported = [] }))
  unfolding routes_received routes_filtered
  requests_agree client' answer fetched' received filtered checked_at now later t on got got'
        valid =
      rw (part_lem imported_of answer received filtered checked_at now later got got') (
        refl,
        second_lem sort client' _ fetched' id _ filtered_of t
            (hit_lem src.routes_required_cache id _ later t on valid),
      )
