-- ===== src/Sources/Birdwatcher/MultiTable/Fetches.antt =====
-- The fetches of the routes of a neighbor, for a dump of all of them.
use mathlib.Core.Path.{subst}
use alice_lg.Common.{
  ◌≡◌, refl, sym, Bool, true, false, some, List, ◌++◌, keep, nat_eq, list_eq, if◌then◌else◌, arith,
  Option-cases, Bool-cases, inl, inr,
}
use alice_lg.Common.Assoc.{get}
use alice_lg.Common.Texts.{Text, codes}
use alice_lg.Api.Route.{Route}
use alice_lg.Sources.Birdwatcher.{
  Outcome, done, failed, panicked, ◌>>=◌, Config, Protocol, Protocols, Fetched, Client, ask,
}
use alice_lg.Sources.Birdwatcher.MultiTable.{
  get_master_pipe_name, is_empty, filter_pipe, received_url, fetch_pipe_filtered,
  fetch_received_routes, fetch_filtered_routes,
}
use alice_lg.Sources.Birdwatcher.MultiTable.Workers.{number}
use alice_lg.Sources.Birdwatcher.MultiTable.Shown.{
  given, shown_received, both, with_pipe, with_first, shown_filtered,
}
use alice_lg.Sources.Birdwatcher.MultiTable.Workers.{number}

-- An outcome of a fetch has as many routes with each property as a list, unless it is a panic.
abbrev pub AsMany : Outcome Fetched → List Route → Type 0
AsMany (done f) routes = (q : Route → Bool) → number q f.routes ≡ number q routes
AsMany (failed e) routes = (q : Route → Bool) → 0 ≡ number q routes
AsMany panicked routes = Unit

given-AsMany : (o : Outcome Fetched) → AsMany o (given o)
unfolding keep
given-AsMany (done f) = λ q. refl
given-AsMany (failed e) = λ q. refl
given-AsMany panicked = tt

unless_lem :
    (b : Bool) (x y : Outcome Fetched) (routes : List Route)
    → b ≡ false
    → AsMany y routes
    → AsMany (if b then x else y) routes
unless_lem true x y routes h many = cc
unless_lem false x y routes h many = many

url_lem :
    (client : Client) (config : Config) (p : Protocol)
    → config.peer_table_only ≡ true
    → received_url client config p
      ≡ codes "/routes/table/" ++ p.table ++ codes "/peer/" ++ p.neighbor_address
unfolding received_url
url_lem client config p only = ground (arith, only)

module _ (sort : List Route → List Route)
    (sorts : (q : Route → Bool) (routes : List Route) → number q (sort routes) ≡ number q routes)
    (client : Client) (config : Config) where
  second_lem :
      (f : Fetched) (o : Outcome Fetched)
      → AsMany
          (o >>= λ (stage2 : Fetched).
            done (record { ttl = f.ttl; routes = sort (f.routes ++ stage2.routes) }))
          (both f.routes o)
  unfolding keep
  second_lem f (done s) = λ q. sorts q (f.routes ++ s.routes)
  second_lem f (failed e) = λ q. refl
  second_lem f panicked = tt

  pipe_lem :
      (table master : Text) (f : Fetched)
      → AsMany
          (fetch_pipe_filtered client config sort false table master f)
          (with_pipe client table f.routes (filter_pipe client config master))
  unfolding fetch_pipe_filtered
  pipe_lem table master f = elim (Option-cases (filter_pipe client config master)) [
    | inl stopped ↦ rw (fetch_pipe_filtered, stopped) tt
    | inr (pipe, found) ↦ rw (fetch_pipe_filtered, found) (second_lem f _)
  ]

  first_lem :
      (p : Protocol) (o : Outcome Fetched)
      → AsMany
          (o >>= λ (stage1 : Fetched).
            if is_empty (get_master_pipe_name config p.table)
            then done stage1
            else fetch_pipe_filtered client config sort false p.table
                (get_master_pipe_name config p.table)
                stage1)
          (with_first client config p o)
  unfolding keep
  first_lem p (failed e) = λ q. refl
  first_lem p panicked = tt
  first_lem p (done f) = elim (Bool-cases (is_empty (get_master_pipe_name config p.table))) [
    | inl no_pipe ↦ rw no_pipe (λ q. refl)
    | inr a_pipe ↦ rw a_pipe (pipe_lem p.table (get_master_pipe_name config p.table) f)
  ]

  pub filtered_lem :
      (protocols : Protocols) (p : Text × Protocol)
      → config.peer_table_only ≡ false
      → get p.0 protocols ≡ some p.1
      → AsMany
          (fetch_filtered_routes client config sort protocols p.0 false)
          (shown_filtered client config p)
  unfolding fetch_filtered_routes
  filtered_lem protocols p tables known =
      rw (fetch_filtered_routes, known)
        (unless_lem config.peer_table_only _ _ _ tables
          (first_lem p.1 (ask client (codes "/routes/filtered/" ++ p.0))))

  pub received_lem :
      (protocols : Protocols) (p : Text × Protocol)
      → config.peer_table_only ≡ true
      → get p.0 protocols ≡ some p.1
      → AsMany (fetch_received_routes client config protocols p.0) (shown_received client p)
  unfolding fetch_received_routes
  received_lem protocols p only known =
      rw (fetch_received_routes, known)
        (subst (λ url. AsMany (ask client url) (shown_received client p))
          (sym (url_lem client config p.1 only))
          (given-AsMany (
            ask client
              (codes "/routes/table/" ++ p.1.table ++ codes "/peer/" ++ p.1.neighbor_address))))
