-- ===== src/Tests/Birds.antt =====
-- The counts and the dump of pkg/sources/birdwatcher at concrete inputs.
use alice_lg.Common.{List, true, false, refl, [], ◌∷◌, none, some, nat_eq, list_eq}
use alice_lg.Common.Assoc.{get, put}
use alice_lg.Common.Ints.{ℤ, pos, ◌+ℤ◌, ◌-ℤ◌, wrap}
use alice_lg.Common.Texts.{Text, codes, has_prefix, to_lower, lower_char}
use alice_lg.Api.Neighbor.{Neighbor}
use alice_lg.Api.Route.{Route, RoutesResponse}
use alice_lg.Sources.Birdwatcher.{
  done, Protocol, Protocols, filter_protocols, Client, filter_routes_by_peer_or_learnt_from,
  choose_routes, is_chosen,
}
use alice_lg.Sources.Birdwatcher.MultiTable.{
  get_master_pipe_name, is_alt_session, get_alt_pipe_name, fetch_filtered_routes,
  fetch_pipe_filtered, filter_pipe,
}
use alice_lg.Sources.Birdwatcher.MultiTable.Counts.{
  Counter, fetch_neighbors_pipe_master, count_tables, count_table, count_each, sum_routes,
  pipe_routes, pipe_name_of, is_protocol_up, parse_protocol_to_table_tree, add_protocol,
  move_filtered,
}
use alice_lg.Sources.Birdwatcher.MultiTable.Conservation.{
  AllMoved, fetch_neighbors_pipe_master-AllMoved,
}
use alice_lg.Sources.Birdwatcher.MultiTable.Dump.{
  Move, take, answer, all_routes, fetch_all_routes, filter_of, run, move, answered, take_at, ended,
}
use alice_lg.Sources.Birdwatcher.MultiTable.Shown.{IsMap, IsComplete}
use alice_lg.Sources.Birdwatcher.MultiTable.Complete.{all_routes-IsComplete}
use alice_lg.Tests.Sources.{bird, plain, unsorted}
use alice_lg.Tests.Stores.{neighbor}

abbrev session : Text → Text → ℤ → Protocol
session name address imported = record {
  bird_protocol = codes "BGP";
  protocol = name;
  state = codes "up";
  routes = some (some imported);
  table = codes "T1";
  neighbor_address = address;
  learnt_from = none;
}

abbrev pipe : Protocol
pipe = record {
  bird_protocol = codes "Pipe";
  protocol = codes "P1";
  state = codes "up";
  routes = some (some (pos 7));
  table = codes "T1";
  neighbor_address = [];
  learnt_from = none;
}

abbrev two_sessions : Protocols
two_sessions =
    (codes "a", session (codes "a") (codes "10.0.0.1") (pos 6))
    ∷ (codes "b", session (codes "b") (codes "10.0.0.2") (pos 4))
    ∷ (codes "P1", pipe)
    ∷ []

-- The server has filtered three routes of the second session.
abbrev counter : Counter
counter url = done (some (pos 3))

abbrev of_session : Text → ℤ → ℤ → Neighbor
of_session id accepted filtered = record neighbor {
  id = id;
  routes_accepted = accepted;
  routes_filtered = filtered;
}

-- A server that answers each request with one route of the first session
abbrev own_route : Route
own_route = record plain { gateway = codes "10.0.0.1" }

abbrev server : Client
server url = done (done (record { ttl = pos 300; routes = own_route ∷ [] }))

-- Both sessions are taken, and the second one is answered first.
abbrev moves : List Move
moves = take ∷ take ∷ answer 0 ∷ answer 7 ∷ answer 0 ∷ []

sessions-IsMap : IsMap two_sessions
unfolding get
sessions-IsMap = (refl, (refl, (refl, tt)))

abbrev complete_response : RoutesResponse
complete_response = record {
  imported = own_route ∷ [];
  filtered = own_route ∷ own_route ∷ [];
  not_exported = [];
}

all_routes-IsComplete_example :
    IsComplete false server bird.config two_sessions (λ r. true) complete_response
unfolding all_routes fetch_all_routes filter_of run move answered take_at ended filter_protocols get
    fetch_filtered_routes fetch_pipe_filtered filter_pipe get_master_pipe_name is_alt_session
    has_prefix filter_routes_by_peer_or_learnt_from choose_routes is_chosen
all_routes-IsComplete_example =
    all_routes-IsComplete unsorted (λ q l. refl) server bird.config moves two_sessions
      sessions-IsMap (λ r. true) complete_response refl

fetch_neighbors_pipe_master-AllMoved_example :
    AllMoved
      (of_session (codes "b") (pos 1) (pos 5) ∷ of_session (codes "c") (pos 9) (pos 0) ∷ [])
      (of_session (codes "b") (pos 4) (pos 2) ∷ of_session (codes "c") (pos 9) (pos 0) ∷ [])
unfolding filter_protocols fetch_neighbors_pipe_master count_tables count_table count_each
    sum_routes pipe_routes pipe_name_of is_protocol_up parse_protocol_to_table_tree add_protocol
    move_filtered get put get_master_pipe_name is_alt_session get_alt_pipe_name has_prefix to_lower
    lower_char ◌+ℤ◌ ◌-ℤ◌ wrap
fetch_neighbors_pipe_master-AllMoved_example =
    fetch_neighbors_pipe_master-AllMoved bird.config counter two_sessions
      (λ ps.
        done (of_session (codes "b") (pos 4) (pos 2) ∷ of_session (codes "c") (pos 9) (pos 0) ∷ []))
      (of_session (codes "b") (pos 1) (pos 5) ∷ of_session (codes "c") (pos 9) (pos 0) ∷ [])
      (of_session (codes "b") (pos 4) (pos 2) ∷ of_session (codes "c") (pos 9) (pos 0) ∷ []) refl
      refl
