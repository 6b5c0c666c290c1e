-- ===== src/Sources/Birdwatcher/MultiTable/Shown.antt =====
-- What the server shows of the routes of all neighbors, and when a dump of them is complete.
use alice_lg.Common.{
  ◌≡◌, Bool, true, false, ◌&&◌, Option, none, some, List, [], ◌++◌, All, nat_eq, list_eq,
  if◌then◌else◌,
}
use alice_lg.Common.Assoc.{get}
use alice_lg.Common.Texts.{Text, codes}
use alice_lg.Api.Route.{Route, RoutesResponse}
use alice_lg.Sources.Birdwatcher.{
  Outcome, done, Config, Protocol, Protocols, Fetched, Client, ask, filter_protocols, is_chosen,
}
use alice_lg.Sources.Birdwatcher.MultiTable.{get_master_pipe_name, is_empty, filter_pipe}
use alice_lg.Sources.Birdwatcher.MultiTable.Workers.{total, number}

-- The routes of an answer, none for an error
abbrev pub given : Outcome Fetched → List Route
given (done f) = f.routes
given _ = []

-- The routes that the server has on the table of a protocol
abbrev pub shown_received : Client → Text × Protocol → List Route
shown_received client p =
    given
      (ask client (codes "/routes/table/" ++ p.1.table ++ codes "/peer/" ++ p.1.neighbor_address))

-- The routes of two answers, none if the second one is an error
abbrev pub both : List Route → Outcome Fetched → List Route
both routes (done f) = routes ++ f.routes
both routes _ = []

abbrev pub with_pipe : Client → Text → List Route → Option Text → List Route
with_pipe client table routes none = []
with_pipe client table routes (some pipe) =
    both routes
      (ask client (codes "/routes/pipe/filtered?table=" ++ table ++ codes "&pipe=" ++ pipe))

abbrev pub with_first : Client → Config → Protocol → Outcome Fetched → List Route
with_first client config p (done f) =
    if is_empty (get_master_pipe_name config p.table)
    then f.routes
    else with_pipe client p.table f.routes
        (filter_pipe client config (get_master_pipe_name config p.table))
with_first client config p _ = []

-- The routes that the server has filtered for a protocol, and on the pipe of its table if it has
-- one; none if a request fails
abbrev pub shown_filtered : Client → Config → Text × Protocol → List Route
shown_filtered client config p =
    with_first client config p.1 (ask client (codes "/routes/filtered/" ++ p.0))

-- The address that the routes of a protocol are learnt from
abbrev pub learnt_address : Protocol → Text
learnt_address p = elim p.learnt_from [ none ↦ p.neighbor_address | some address ↦ address ]

-- The BGP protocols
abbrev pub bgp_protocols : Protocols → Protocols
bgp_protocols protocols = filter_protocols protocols (codes "BGP")

-- In a map, every entry is that of its key.
abbrev pub IsMap : Protocols → Type 0
IsMap protocols = All (λ (e : Text × Protocol). get e.0 protocols ≡ some e.1) protocols

-- The response has, with only peer tables, the routes on the table of each BGP protocol; otherwise
-- it has those of the main table as imported and, as filtered, those that the server has filtered for
-- each BGP protocol and that belong to its neighbor.
abbrev pub IsComplete :
    Bool → Client → Config → Protocols → (Route → Bool) → RoutesResponse → Type 0
IsComplete true client config protocols q res =
    (number q res.imported
      ≡ total (λ p. number q (shown_received client p)) (bgp_protocols protocols))
    × (res.filtered ≡ [])
IsComplete false client config protocols q res =
    (res.imported ≡ given (ask client (codes "/routes/table/" ++ config.main_table)))
    × (number q res.filtered
        ≡ total
            (λ p.
              number
                (λ r. is_chosen (some p.1.neighbor_address) (some (learnt_address p.1)) r && q r)
                (shown_filtered client config p))
            (bgp_protocols protocols))
