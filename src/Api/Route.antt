-- ===== src/Api/Route.antt =====
-- pkg/api/response_routes.go: routes and lookup routes, as filterable objects. A route's BGP
-- attributes are present, and so are the neighbor id and the gateway of a route and the id of a
-- route server, which every source fills in.
use alice_lg.Common.{
  ℕ, Bool, true, false, Option, none, some, List, [], ◌∷◌, ◌++◌, nat_beq, nat_eq, list_eq, list_beq,
  if◌then◌else◌,
}
use alice_lg.Common.Assoc.{Assoc, get}
use alice_lg.Common.Ints.{ℤ}
use alice_lg.Common.Texts.{Text}
use alice_lg.Api.Community.{BgpInfo, has_community, has_ext_community, has_large_community}
use alice_lg.Api.Filters.Value.{Pointer}
use alice_lg.Api.Filters.Match.{Filterable}
use alice_lg.Api.Neighbor
use alice_lg.Api.Neighbor.{Neighbor}

-- Route
pub record Route : Type 0 where
  pub neighbor_id : Pointer
  pub network : Text
  pub interface : Option Text
  pub gateway : Text
  pub metric : ℤ
  pub bgp : BgpInfo
  pub age : ℤ
  pub kind : List Text
  pub primary : Bool
  pub learnt_from : Option Text
  pub addr_family : ℕ
  pub details : Option Text

-- The methods of `Route` for `Filterable`: a route knows neither its source nor its ASN.
unfoldable pub route_filterable : Route → Filterable
unfolding has_community has_ext_community has_large_community
route_filterable r = record {
  match_source_id = λ id. true;
  match_asn = λ asn. true;
  match_community = λ c. has_community r.bgp c;
  match_ext_community = λ c. has_ext_community r.bgp c;
  match_large_community = λ c. has_large_community r.bgp c;
  match_addr_family = λ family. nat_beq r.addr_family family;
}

-- LookupRouteServer
pub record LookupRouteServer : Type 0 where
  pub id : Pointer
  pub name : Text

-- LookupRoute
pub record LookupRoute : Type 0 where
  pub route : Route
  pub state : Text
  pub neighbor : Neighbor
  pub route_server : LookupRouteServer

-- The methods of `LookupRoute` for `Filterable`
unfoldable pub lookup_filterable : LookupRoute → Filterable
unfolding has_community has_ext_community has_large_community Neighbor.match_asn
lookup_filterable r = record {
  match_source_id = λ id. list_beq r.route_server.id.target id;
  match_asn = λ asn. Neighbor.match_asn r.neighbor asn;
  match_community = λ c. has_community r.route.bgp c;
  match_ext_community = λ c. has_ext_community r.route.bgp c;
  match_large_community = λ c. has_large_community r.route.bgp c;
  match_addr_family = λ family. nat_beq r.route.addr_family family;
}

-- NeighborQuery
pub record NeighborQuery : Type 0 where
  pub neighbor_id : Pointer
  pub source_id : Pointer

-- LookupRoute.MatchNeighborQuery: a comparison of pointers
unfoldable pub match_neighbor_query : LookupRoute → NeighborQuery → Bool
match_neighbor_query r query =
    if nat_beq r.route_server.id.address query.source_id.address
    then nat_beq r.route.neighbor_id.address query.neighbor_id.address
    else false

-- Routes.ToLookupRoutes; the route in the result has lost its details.
unfoldable pub to_lookup_routes :
    List Route → Text → LookupRouteServer → Assoc Text Neighbor → List LookupRoute
unfolding get
to_lookup_routes [] state rs neighbors = []
to_lookup_routes (route ∷ routes) state rs neighbors =
    let rest = to_lookup_routes routes state rs neighbors in
    elim (get route.neighbor_id.target neighbors) [
      | none ↦ rest
      | some neighbor ↦
          record {
            route = record route { details = none };
            state = state;
            neighbor = neighbor;
            route_server = rs;
          }
          ∷ rest
    ]

-- RoutesResponse, without its meta data
pub record RoutesResponse : Type 0 where
  pub imported : List Route
  pub filtered : List Route
  pub not_exported : List Route

-- RoutesResponse.Merge
unfoldable pub merge : RoutesResponse → RoutesResponse → RoutesResponse
merge res other = record {
  imported = res.imported ++ other.imported;
  filtered = res.filtered ++ other.filtered;
  not_exported = res.not_exported ++ other.not_exported;
}
