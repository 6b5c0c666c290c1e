-- ===== src/Tests/Handlers.antt =====
-- The handlers of pkg/http at concrete inputs.
use alice_lg.Common.{◌≡◌, refl, Option, some, [], ◌∷◌, keep, nat_eq, list_eq, string_eq, arith}
use alice_lg.Common.Ints.{pos}
use alice_lg.Common.Texts.{Text, codes, to_lower, has_prefix, byte_length, atoi}
use alice_lg.Api.Route.{Route, RoutesResponse}
use alice_lg.Api.Filters.Query.{QueryError, filters_from_query}
use alice_lg.Api.Filters.Collection.{new_search_filters}
use alice_lg.Http.Query.{Values, query_must_int, filter_next_hop_gateway, validate_source_id}
use alice_lg.Http.Errors.{Reply, replied}
use alice_lg.Http.Routes.{
  routes_of_source, api_routes_list_received, api_routes_list_filtered,
  api_routes_list_not_exported,
}
use alice_lg.Http.Routes.Pages.{matching, page_reply, api_routes_list_exact}
use alice_lg.Http.Search.{Server}
use alice_lg.Tests.Stores.{rs1, route_to, all_pass, with_neighbors, stored_routes}
use alice_lg.Tests.Refreshes.{empty_store}

abbrev text : QueryError → Text
text e = codes "invalid filter"

abbrev imported : Route
imported = (route_to (codes "10.0.0.0/8")).route

abbrev filtered : Route
filtered = (route_to (codes "192.168.0.0/16")).route

abbrev response : RoutesResponse
response = record { imported = imported ∷ []; filtered = filtered ∷ []; not_exported = [] }

abbrev instance_by_id : Text → Option (Reply RoutesResponse)
instance_by_id _ = some (replied response)

abbrev query : Values
query = ("page", codes "0" ∷ []) ∷ ("q", codes "10." ∷ []) ∷ []

api_routes_list_exact_example :
    (api_routes_list_received text (pos 1) instance_by_id rs1 query
      ≡ page_reply all_pass
          (λ l. record { imported = l; filtered = []; not_exported = [] })
          0
          1
          (matching all_pass (imported ∷ [])))
    × (api_routes_list_filtered text (pos 1) instance_by_id rs1 query
        ≡ page_reply all_pass
            (λ l. record { imported = []; filtered = l; not_exported = [] })
            0
            1
            (matching all_pass []))
    × (api_routes_list_not_exported text (pos 1) instance_by_id rs1 query
        ≡ page_reply all_pass
            (λ l. record { imported = []; filtered = []; not_exported = l })
            0
            1
            (matching all_pass []))
unfolding query_must_int filters_from_query new_search_filters routes_of_source validate_source_id
    byte_length filter_next_hop_gateway to_lower has_prefix atoi keep
api_routes_list_exact_example =
    api_routes_list_exact all_pass query 0 1 text instance_by_id rs1 (imported ∷ []) [] [] refl
      (omega arith) (omega arith) refl refl refl refl

abbrev dial_error : Text
dial_error = codes "dial tcp 10.0.0.1:80: connection refused"

abbrev server : Server
server = record {
  neighbors_store = with_neighbors;
  routes_store = record empty_store { backend = stored_routes };
  filter_cutoff = pos 100;
  routes_accepted_page_size = pos 50;
  routes_filtered_page_size = pos 20;
}

abbrev search : Values
search = ("q", codes "10." ∷ []) ∷ []
