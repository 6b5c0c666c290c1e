-- ===== src/Sources/Birdwatcher.antt =====
-- pkg/sources/birdwatcher: source.go, what the sources over a single table and over several tables
-- share. `sort` is sort.Sort on routes, by their networks. The protocols are the fields that the
-- code reads of the parsed JSON. Gateways are compared as texts: they come from one pool, whose
-- pointers are equal exactly if their texts are.
pub mod SingleTable
pub mod MultiTable
pub mod Split
pub mod Requests
pub mod Outage
use alice_lg.Common.{
  ℕ, ◌+◌, Bool, true, false, ◌||◌, Option, none, some, List, [], ◌∷◌, ◌++◌, map, nat_eq, list_eq,
  list_beq, if◌then◌else◌,
}
use alice_lg.Common.Assoc.{Assoc, get, put, delete}
use alice_lg.Common.Ints.{ℤ}
use alice_lg.Common.Texts.{Text}
use alice_lg.Api.Neighbor.{Neighbor}
use alice_lg.Api.Route.{Route, RoutesResponse}
use alice_lg.Caches.Neighbors.{Response, NeighborsCache}
use alice_lg.Caches.Routes
use alice_lg.Caches.Routes.{RoutesCache, expire}

-- What a call gives: a value, an error, or a panic
pub data Outcome (A : Type 0) : Type 0 where
  done : A → Outcome A
  failed : Text → Outcome A
  panicked : Outcome A

infixl 5 ◌>>=◌
abbrev pub ◌>>=◌ : {A B : Type 0} → Outcome A → (A → Outcome B) → Outcome B
done a >>= f = f a
failed e >>= f = failed e
panicked >>= f = panicked

-- Config
pub record Config : Type 0 where
  pub main_table : Text
  pub main_table4 : Text
  pub main_table6 : Text
  pub peer_table_only : Bool
  pub peer_table_prefix : Text
  pub pipe_protocol_prefix : Text
  pub alt_pipe_protocol_prefix : Text
  pub alt_pipe_protocol_suffix : Text

-- GenericBirdwatcher; the client is an argument.
pub record Source : Type 0 where
  pub config : Config
  pub neighbors_cache : NeighborsCache (List Neighbor)
  pub routes_required_cache : RoutesCache RoutesResponse
  pub routes_not_exported_cache : RoutesCache RoutesResponse

-- A protocol, by the fields that the code reads (of its `routes` the number that
-- it imported; each of the two may be missing)
pub record Protocol : Type 0 where
  pub bird_protocol : Text
  pub protocol : Text
  pub state : Text
  pub routes : Option (Option ℤ)
  pub table : Text
  pub neighbor_address : Text
  pub learnt_from : Option Text

abbrev pub Protocols : Type 0
Protocols = Assoc Text Protocol

-- filterProtocols
unfoldable pub filter_protocols : Protocols → Text → Protocols
filter_protocols [] protocol = []
filter_protocols ((id, p) ∷ protocols) protocol =
    let rest = filter_protocols protocols protocol in
    if list_beq p.bird_protocol protocol then (id, p) ∷ rest else rest

-- The comparison of two pointers to pooled texts, of which either may be nil
abbrev pub same_pointer : Option Text → Option Text → Bool
same_pointer none none = true
same_pointer (some s) (some t) = list_beq s t
same_pointer _ _ = false

-- The test of filterRoutesByPeerOrLearntFrom
unfoldable pub is_chosen : Option Text → Option Text → Route → Bool
is_chosen peer learnt_from route =
    same_pointer (some route.gateway) peer
    || same_pointer (some route.gateway) learnt_from
    || same_pointer route.learnt_from peer

-- The loop of filterRoutesByPeerOrLearntFrom
unfoldable pub choose_routes : Option Text → Option Text → List Route → List Route
choose_routes peer learnt_from [] = []
choose_routes peer learnt_from (route ∷ routes) =
    let rest = choose_routes peer learnt_from routes in
    if is_chosen peer learnt_from route then route ∷ rest else rest

-- The first two loops of filterRoutesByDuplicates: routesMap
unfoldable pub map_routes : List Route → Assoc Text Route → Assoc Text Route
map_routes [] m = m
map_routes (route ∷ routes) m = map_routes routes (put route.network route m)

unfoldable pub remove_routes : List Route → Assoc Text Route → Assoc Text Route
remove_routes [] m = m
remove_routes (f ∷ filter_routes) m = remove_routes filter_routes (delete f.network m)

-- What parseRoutesResponseStream makes of a body: the TTL of the meta data, and the routes
pub record Fetched : Type 0 where
  pub ttl : ℤ
  pub routes : List Route

-- The client, by URL: GetEndpoint fails, or gives a body, which is known by what its parser makes
-- of it.
abbrev pub Client : Type 0
Client = Text → Outcome (Outcome Fetched)

-- A request and the parsing of its body, where both errors are returned
abbrev pub ask : Client → Text → Outcome Fetched
ask client url = client url >>= λ body. body

module _ (sort : List Route → List Route) where
  -- filterRoutesByPeerOrLearntFrom
  unfoldable pub filter_routes_by_peer_or_learnt_from :
      List Route → Option Text → Option Text → List Route
  filter_routes_by_peer_or_learnt_from routes peer learnt_from =
      sort (choose_routes peer learnt_from routes)

  -- filterRoutesByDuplicates
  unfoldable pub filter_routes_by_duplicates : List Route → List Route → List Route
  filter_routes_by_duplicates routes filter_routes =
      sort (map (λ (e : Text × Route). e.1) (remove_routes filter_routes (map_routes routes [])))

  -- The deduplication in fetchRequiredRoutes
  unfoldable pub deduplicate : List Route → List Route → RoutesResponse
  deduplicate [] filtered_routes = record {
    imported = [];
    filtered = filtered_routes;
    not_exported = [];
  }
  deduplicate (first ∷ received_routes) filtered_routes =
      let chosen =
        filter_routes_by_peer_or_learnt_from filtered_routes (some first.gateway)
          first.learnt_from in
      record {
        imported = filter_routes_by_duplicates (first ∷ received_routes) chosen;
        filtered = chosen;
        not_exported = [];
      }

  -- fetchRequiredRoutes, with the lock of the neighbor; the two arguments are what the fetches of
  -- the received and of the filtered routes give.
  unfoldable pub fetch_required_routes :
      Source
      → Text
      → Outcome Fetched
      → Outcome Fetched
      → ℤ
      → ℤ
      → Source × Outcome (Response RoutesResponse)
  fetch_required_routes src neighbor_id received filtered now later =
      let (cache, hit) = Routes.get src.routes_required_cache neighbor_id now in
      let looked = record src { routes_required_cache = cache } in
      elim hit [
        | some response ↦ (looked, done response)
        | none ↦ elim received [
          | failed e ↦ (looked, failed e)
          | panicked ↦ (looked, panicked)
          | done r ↦ elim filtered [
            | failed e ↦ (looked, failed e)
            | panicked ↦ (looked, panicked)
            | done f ↦
                let response : Response RoutesResponse = record {
                  ttl = r.ttl;
                  content = deduplicate r.routes f.routes;
                } in
                (
                  record looked {
                    routes_required_cache = Routes.set cache neighbor_id response later;
                  },
                  done response,
                )
          ]
        ]
      ]

-- ExpireCaches
unfoldable pub expire_caches : Source → ℤ → Source × ℕ
expire_caches src now =
    let (required, count) = expire src.routes_required_cache now in
    let (not_exported, count') = expire src.routes_not_exported_cache now in
    (
      record src { routes_required_cache = required; routes_not_exported_cache = not_exported },
      count + count',
    )
