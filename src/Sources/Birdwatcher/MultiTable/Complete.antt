-- ===== src/Sources/Birdwatcher/MultiTable/Complete.antt =====
-- All routes of all neighbors are collected.
use mathlib.Core.Path.{subst}
use alice_lg.Common.{
  ℕ, ◌≡◌, refl, sym, ap, ◌∙◌, Bool, true, false, ◌&&◌, Option, none, some, List, [], ◌∷◌, ◌++◌,
  keep, All, All_map, nat_eq, list_eq, list_beq, if◌then◌else◌, arith, Bool-cases, inl, inr,
}
use alice_lg.Common.Assoc.{get}
use alice_lg.Common.Texts.{Text, codes}
use alice_lg.Api.Route.{Route, RoutesResponse}
use alice_lg.Sources.Birdwatcher.{
  Outcome, done, failed, panicked, ◌>>=◌, Config, Protocol, Protocols, Fetched, Client, ask,
  filter_protocols, filter_routes_by_peer_or_learnt_from, is_chosen, choose_routes,
}
use alice_lg.Sources.Birdwatcher.MultiTable.Dump.{
  Move, Collected, collected, still_running, crashed, run, routes_or_nil, respond, receive,
  filter_of, fetch_all_routes_from_peer_table, fetch_all_routes, all_routes,
}
use alice_lg.Sources.Birdwatcher.MultiTable.Workers.{total, number, Gives, Holds, run_all}
use alice_lg.Sources.Birdwatcher.MultiTable.Shown.{
  given, shown_received, shown_filtered, learnt_address, bgp_protocols, IsMap, IsComplete,
}
use alice_lg.Sources.Birdwatcher.MultiTable.Fetches.{AsMany, filtered_lem, received_lem}

filter_protocols-All :
    (P : Text × Protocol → Type 0) (ps : Protocols) (kind : Text)
    → All P ps
    → All P (filter_protocols ps kind)
unfolding filter_protocols
filter_protocols-All P [] kind h = tt
filter_protocols-All P ((id, p) ∷ ps) kind h = elim (Bool-cases (list_beq p.bird_protocol kind)) [
  | inl same ↦ rw same (h.0, filter_protocols-All P ps kind h.1)
  | inr other ↦ rw other (filter_protocols-All P ps kind h.1)
]

number-choose_routes :
    (peer learnt : Option Text) (q : Route → Bool) (routes : List Route)
    → number q (choose_routes peer learnt routes)
      ≡ number (λ r. is_chosen peer learnt r && q r) routes
unfolding choose_routes keep
number-choose_routes peer learnt q [] = refl
number-choose_routes peer learnt q (r ∷ routes) =
    ground (arith, number-choose_routes peer learnt q routes)

some_inj : {A : Type 0} {a b : A} → some a ≡ some b → a ≡ b
some_inj h = cc

-- What a worker of AllRoutes does with the routes of an answer
abbrev filter_answer :
    (List Route → List Route) → Text × Protocol → Option (List Route) → Option (List Route)
filter_answer sort p none = none
filter_answer sort p (some filtered) = some (
    filter_routes_by_peer_or_learnt_from sort filtered (some p.1.neighbor_address)
      (some (learnt_address p.1)))

module _ (sort : List Route → List Route)
    (sorts : (q : Route → Bool) (routes : List Route) → number q (sort routes) ≡ number q routes)
    (client : Client) (config : Config) where
  receive-Gives :
      (protocols : Protocols) (q : Route → Bool) (p : Text × Protocol) (o : Outcome Fetched)
      → AsMany o (shown_received client p)
      → (r : List Route) → routes_or_nil o ≡ some r
      → number q r ≡ number q (shown_received client p)
  unfolding keep
  receive-Gives protocols q p (done f) many r h = ap (number q) (sym (some_inj h)) ∙ many q
  receive-Gives protocols q p (failed e) many r h = ap (number q) (sym (some_inj h)) ∙ many q
  receive-Gives protocols q p panicked many r h = cc

  -- The properties of the routes that belong to the neighbor of a protocol
  abbrev own : Protocol → (Route → Bool) → Route → Bool
  own p q r = is_chosen (some p.neighbor_address) (some (learnt_address p)) r && q r

  chosen_lem :
      (p : Protocol) (q : Route → Bool) (routes : List Route)
      → number q (
          filter_routes_by_peer_or_learnt_from sort routes
            (some p.neighbor_address)
            (some (learnt_address p)))
        ≡ number (own p q) routes
  unfolding filter_routes_by_peer_or_learnt_from
  chosen_lem p q routes =
      sorts q (choose_routes (some p.neighbor_address) (some (learnt_address p)) routes)
      ∙ number-choose_routes (some p.neighbor_address) (some (learnt_address p)) q routes

  filter_of-Gives :
      (q : Route → Bool) (p : Text × Protocol) (o : Outcome Fetched)
      → AsMany o (shown_filtered client config p)
      → (r : List Route) → filter_answer sort p (routes_or_nil o) ≡ some r
      → number q r ≡ number (own p.1 q) (shown_filtered client config p)
  unfolding keep
  filter_of-Gives q p (done f) many r h =
      ap (number q) (sym (some_inj h)) ∙ chosen_lem p.1 q f.routes ∙ many (own p.1 q)
  filter_of-Gives q p (failed e) many r h =
      ap (number q) (sym (some_inj h)) ∙ chosen_lem p.1 q [] ∙ many (own p.1 q)
  filter_of-Gives q p panicked many r h = cc

  -- A property of the response, if there is one
  abbrev Answers : (RoutesResponse → Type 0) → Outcome (Option RoutesResponse) → Type 0
  Answers P (done (some res)) = P res
  Answers P _ = Unit

  respond_lem :
      (P : RoutesResponse → Type 0) (f : List Route → RoutesResponse) (q : Route → Bool) (n : ℕ)
      (c : Collected)
      → ((rs : List Route) → number q rs ≡ n → P (f rs))
      → Holds q n c
      → Answers P (respond f c)
  respond_lem P f q n (collected rs) h holds = h rs holds
  respond_lem P f q n still_running h holds = tt
  respond_lem P f q n crashed h holds = tt

  module _ (moves : List Move) (protocols : Protocols) (is_map : IsMap protocols)
      (q : Route → Bool) where
    peer_tables_lem :
        config.peer_table_only ≡ true
        → Answers
            (IsComplete true client config protocols q)
            (fetch_all_routes_from_peer_table moves sort client config (done protocols))
    unfolding fetch_all_routes_from_peer_table receive
    peer_tables_lem only =
        respond_lem (IsComplete true client config protocols q) _ q
          (total (λ p. number q (shown_received client p)) (bgp_protocols protocols)) _
          (λ rs counted. (counted, refl))
          (run_all (receive sort client config protocols) q
            (λ p. number q (shown_received client p)) moves (bgp_protocols protocols)
            (filter_protocols-All
              (Gives (receive sort client config protocols) q
                (λ p. number q (shown_received client p)))
              protocols (codes "BGP")
              (All_map (λ (e : Text × Protocol). get e.0 protocols ≡ some e.1) _ protocols
                (λ p known.
                  receive-Gives protocols q p _
                    (received_lem sort sorts client config protocols p only known))
                is_map)))

    main_table_lem :
        (asked : Outcome Fetched)
        → ask client (codes "/routes/table/" ++ config.main_table) ≡ asked
        → config.peer_table_only ≡ false
        → Answers (IsComplete false client config protocols q) (
            asked >>= λ res.
            respond
              (λ filtered. record { imported = res.routes; filtered = filtered; not_exported = [] })
              (run
                (filter_of sort client config protocols)
                moves
                (bgp_protocols protocols, [], [])))
    unfolding filter_of
    main_table_lem (failed e) h tables = tt
    main_table_lem panicked h tables = tt
    main_table_lem (done res) h tables =
        respond_lem (IsComplete false client config protocols q) _ q
          (total (λ p. number (own p.1 q) (shown_filtered client config p))
            (bgp_protocols protocols))
          _ (λ rs counted. (sym (ap given h), counted))
          (run_all (filter_of sort client config protocols) q
            (λ p. number (own p.1 q) (shown_filtered client config p)) moves
            (bgp_protocols protocols)
            (filter_protocols-All
              (Gives (filter_of sort client config protocols) q
                (λ p. number (own p.1 q) (shown_filtered client config p)))
              protocols (codes "BGP")
              (All_map (λ (e : Text × Protocol). get e.0 protocols ≡ some e.1) _ protocols
                (λ p known.
                  filter_of-Gives q p _
                    (filtered_lem sort sorts client config protocols p tables known))
                is_map)))

    answers_lem :
        (b : Bool)
        → config.peer_table_only ≡ b
        → Answers (IsComplete b client config protocols q) (
            if b
            then fetch_all_routes_from_peer_table moves sort client config (done protocols)
            else fetch_all_routes moves sort client config (done protocols))
    unfolding fetch_all_routes
    answers_lem true only = peer_tables_lem only
    answers_lem false tables =
        main_table_lem (ask client (codes "/routes/table/" ++ config.main_table)) refl tables

    -- Whatever the moves of the workers are: a response of AllRoutes over several tables is complete,
    -- when the protocols are a map, sorting keeps the routes, and the workers have ended. With only
    -- peer tables, it has for any property of routes as many with it as the server shows on the
    -- tables of the BGP protocols. Otherwise its imported routes are those of the main table, and it
    -- has as many filtered ones with the property as the server has filtered for the BGP protocols
    -- (on the pipe of the table too, if there is one) and belong to the neighbor; a protocol whose
    -- requests fail has none.
    pub all_routes-IsComplete :
        (res : RoutesResponse)
        → all_routes moves sort client config (done protocols) ≡ done (some res)
        → IsComplete config.peer_table_only client config protocols q res
    unfolding all_routes
    all_routes-IsComplete res h =
        subst (Answers (IsComplete config.peer_table_only client config protocols q)) h
          (answers_lem config.peer_table_only refl)
