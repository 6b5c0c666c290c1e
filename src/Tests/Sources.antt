-- ===== src/Tests/Sources.antt =====
-- The sources of pkg/sources at concrete inputs.
use alice_lg.Common.{
  ◌≡◌, inl, refl, List, [], ◌∷◌, ◌&&◌, not, none, some, false, any, nat_eq, list_eq,
}
use alice_lg.Common.Assoc.{get}
use alice_lg.Common.Ints.{ℤ, pos}
use alice_lg.Common.Texts.{Text, codes, has_prefix}
use alice_lg.Api.Route.{Route}
use alice_lg.Caches.Neighbors as Single
use alice_lg.Caches.Neighbors.{new_neighbors_cache}
use alice_lg.Caches.Routes.{new_routes_cache}
use alice_lg.Sources.Answers.{Answer, answer}
use alice_lg.Sources.OpenBgpd
use alice_lg.Sources.OpenBgpd.{routes, routes_received, routes_filtered, new_source}
use alice_lg.Sources.OpenBgpd.Coherence.{
  received_of, rejected_of, IsCoherent, Answers, new_source-IsCoherent, routes-IsCoherent,
}
use alice_lg.Sources.Birdwatcher
use alice_lg.Sources.Birdwatcher.{
  Outcome, done, failed, panicked, Protocol, Protocols, Fetched, Client, is_chosen, deduplicate,
}
use alice_lg.Sources.Birdwatcher.MultiTable
use alice_lg.Sources.Birdwatcher.MultiTable.{
  get_master_pipe_name, is_alt_session, get_alt_pipe_name, received_url, filter_pipe,
  fetch_pipe_filtered, fetch_received_routes, fetch_filtered_routes,
}
use alice_lg.Sources.Birdwatcher.Split.{is_on, deduplicate_exact}
use alice_lg.Sources.Birdwatcher.Requests.{requests_agree}
use alice_lg.Sources.Birdwatcher.Outage.{outage}
use alice_lg.Tests.Stores.{rs1, rs2, bgp_info, route_to}

abbrev config : OpenBgpd.Config
config = record {
  id = rs1;
  cache_ttl = pos 300;
  routes_cache_size = pos 10;
  reject_communities = (pos 65535 ∷ pos 1 ∷ pos 2 ∷ []) ∷ [];
}

abbrev pub plain : Route
plain = (route_to (codes "10.0.0.0/8")).route

abbrev rejected : Route
rejected = record plain {
  network = codes "192.168.0.0/16";
  bgp = record bgp_info { large_communities = (pos 65535 ∷ pos 1 ∷ pos 2 ∷ []) ∷ [] };
}

abbrev ribs : Text → List Route
ribs _ = plain ∷ rejected ∷ []

abbrev source : OpenBgpd.Source
source = new_source config

routes-IsCoherent_example :
    let imported = received_of source (ribs rs2) in
    let filtered = rejected_of source (ribs rs2) in
    let rib : Answer (List Route) = answer (ribs rs2) in
    (IsCoherent (routes source rs2 rib (pos 1) (pos 2)).0 ribs
      × Answers
          (routes source rs2 rib (pos 1) (pos 2)).1
          rib
          (record { imported = imported; not_exported = []; filtered = filtered }))
    × (IsCoherent (routes_received source rs2 rib (pos 1) (pos 2)).0 ribs
        × Answers
            (routes_received source rs2 rib (pos 1) (pos 2)).1
            rib
            (record { imported = imported; not_exported = []; filtered = [] }))
    × (IsCoherent (routes_filtered source rs2 rib (pos 1) (pos 2)).0 ribs
        × Answers
            (routes_filtered source rs2 rib (pos 1) (pos 2)).1
            rib
            (record { imported = []; not_exported = []; filtered = filtered }))
routes-IsCoherent_example =
    routes-IsCoherent source ribs rs2 (answer (ribs rs2)) (pos 1) (pos 2)
      (new_source-IsCoherent config ribs) (inl refl)

-- An order of one or no routes: the lists here need none.
abbrev pub unsorted : List Route → List Route
unsorted routes = routes

deduplicate_exact_example :
    let res = deduplicate unsorted (plain ∷ rejected ∷ []) (rejected ∷ []) in
    (any (is_on (codes "a")) res.filtered
      ≡ any (λ r. is_chosen (some []) none r && is_on (codes "a") r) (rejected ∷ []))
    × (any (is_on (codes "192.168.0.0/16")) res.imported ≡ (
        any (is_on (codes "192.168.0.0/16")) (plain ∷ rejected ∷ [])
        && not (any (is_on (codes "192.168.0.0/16")) res.filtered)))
    × ((any (is_on (codes "a")) res.imported
          && not (any (is_on (codes "a")) (plain ∷ rejected ∷ [])))
        ≡ false)
deduplicate_exact_example =
    deduplicate_exact unsorted (λ p l. refl) plain (rejected ∷ []) (rejected ∷ [])
      (codes "192.168.0.0/16") (is_on (codes "a"))

abbrev pub bird : Birdwatcher.Source
bird = record {
  config = record {
    main_table = codes "master";
    main_table4 = [];
    main_table6 = [];
    peer_table_only = false;
    peer_table_prefix = codes "T";
    pipe_protocol_prefix = codes "P";
    alt_pipe_protocol_prefix = codes "M";
    alt_pipe_protocol_suffix = codes "_lg";
  };
  neighbors_cache = new_neighbors_cache false;
  routes_required_cache = new_routes_cache false (pos 128);
  routes_not_exported_cache = new_routes_cache false (pos 128);
}

abbrev protocols : Protocols
protocols =
    (
      rs1,
      record {
        bird_protocol = codes "BGP";
        protocol = [];
        state = [];
        routes = none;
        table = codes "T65535";
        neighbor_address = codes "10.0.0.1";
        learnt_from = none;
      },
    )
    ∷ []

abbrev fetched : Fetched
fetched = record { ttl = pos 300; routes = plain ∷ [] }

abbrev pub client : Client
client url = done (done fetched)

requests_agree_example :
    let split = deduplicate unsorted (plain ∷ []) (plain ∷ plain ∷ []) in
    let first =
      MultiTable.routes_received unsorted client bird
        (done (pos 0, protocols))
        rs1
        (pos 1)
        (pos 2)
        (pos 3) in
    (first.1 ≡ done (record { imported = split.imported; filtered = []; not_exported = [] }))
    × ((MultiTable.routes_filtered unsorted
          (λ url. panicked)
          first.0
          panicked
          rs1
          (pos 9)
          (pos 9)
          (pos 9)).1
        ≡ done (record { imported = []; filtered = split.filtered; not_exported = [] }))
unfolding new_routes_cache get fetch_received_routes fetch_filtered_routes fetch_pipe_filtered
    filter_pipe get_master_pipe_name is_alt_session has_prefix
requests_agree_example =
    requests_agree unsorted client bird rs1 refl (λ url. panicked) (pos 0, protocols) panicked
      fetched (record { ttl = pos 300; routes = plain ∷ plain ∷ [] }) (pos 1) (pos 2) (pos 3)
      (pos 9) refl refl refl refl

abbrev with_protocols : Outcome (ℤ × Protocols)
with_protocols = done (pos 0, protocols)

abbrev failure : {A : Type 0} → Outcome A
failure = failed (codes "refused")

abbrev down : Client
down url = failure

abbrev broken : Client
broken url = done failure

outage_example :
    (((MultiTable.routes_received unsorted client bird failure rs1 (pos 1) (pos 2) (pos 3)).1
        ≡ failure)
      × ((MultiTable.routes_filtered unsorted client bird failure rs1 (pos 1) (pos 2) (pos 3)).1
          ≡ failure)
      × ((MultiTable.routes_not_exported unsorted client bird failure rs1 (pos 2) (pos 3)).1
          ≡ failure))
    × (((MultiTable.routes_received unsorted down bird with_protocols rs1 (pos 1) (pos 2) (pos 3)).1
          ≡ failure)
        × ((MultiTable.routes_filtered unsorted down bird with_protocols rs1
              (pos 1)
              (pos 2)
              (pos 3)).1
            ≡ failure)
        × ((MultiTable.routes_not_exported unsorted down bird with_protocols rs1 (pos 2) (pos 3)).1
            ≡ panicked))
    × (((MultiTable.routes_received unsorted broken bird with_protocols rs1
            (pos 1)
            (pos 2)
            (pos 3)).1
          ≡ failure)
        × ((MultiTable.routes_filtered unsorted broken bird with_protocols rs1
              (pos 1)
              (pos 2)
              (pos 3)).1
            ≡ failure)
        × ((MultiTable.routes_not_exported unsorted broken bird with_protocols rs1
              (pos 2)
              (pos 3)).1
            ≡ failure))
unfolding new_routes_cache get get_master_pipe_name is_alt_session has_prefix
outage_example =
    outage unsorted bird rs1 (codes "refused") (pos 1) (pos 2) (pos 3) refl refl client
      (pos 0, protocols)
      (record {
        bird_protocol = codes "BGP";
        protocol = [];
        state = [];
        routes = none;
        table = codes "T65535";
        neighbor_address = codes "10.0.0.1";
        learnt_from = none;
      })
      refl refl
