-- ===== src/Http/Routes.antt =====
-- pkg/http/api_endpoints_routes.go: the three handlers of the routes of a neighbor. The instance of
-- a source is an argument, and so are the texts of the errors of the filters; the meta data
-- and the duration of a response are left out.
pub mod Pages
pub mod Failures
use Prim.Native.String.{String}
use alice_lg.Common.{
  ℕ, Bool, true, false, ◌||◌, Option, none, some, List, [], ◌∷◌, ◌++◌, nat_beq, nat_eq, string_eq,
  if◌then◌else◌,
}
use alice_lg.Common.Ints.{ℤ, pos}
use alice_lg.Common.Texts.{Text}
use alice_lg.Api.Route.{Route, RoutesResponse, route_filterable}
use alice_lg.Api.Filters.Query as Parsing
use alice_lg.Api.Filters.Query.{QueryError, filters_from_query}
use alice_lg.Api.Filters.Collection.{
  SearchFilters, new_search_filters, match_route, update_from_route, set_filter_addr_families,
  merge_properties, sub,
}
use alice_lg.Http.Query.{
  Values, Checked, valid, invalid, validate_source_id, filter_next_hop_gateway, query_must_int,
}
use alice_lg.Http.Pagination.{Pagination, paginate}
use alice_lg.Http.Errors.{
  ApiError, resource_not_found, other, validation_failed, reason_text, Reply, replied, error_reply,
  panicked, ◌>>=◌,
}

abbrev pub unless_panic : {A : Type 0} → Option A → Reply A
unless_panic none = panicked
unless_panic (some a) = replied a

-- The error of FiltersFromQuery, by its text
abbrev pub unless_refused : {A : Type 0} → (QueryError → Text) → Parsing.Outcome A → Reply A
unless_refused text (Parsing.parsed a) = replied a
unless_refused text (Parsing.refused e) = error_reply (other (text e))
unless_refused text Parsing.panicked = panicked

-- What the loop over the routes computes: the routes that match, the filters that they offer,
-- and the address families seen
pub record Selection : Type 0 where
  pub routes : List Route
  pub filters_available : SearchFilters
  pub has_ip4 : Bool
  pub has_ip6 : Bool

-- The loop over the routes
unfoldable pub select_routes : SearchFilters → List Route → Selection → Option Selection
select_routes filters_applied [] sel = some sel
select_routes filters_applied (r ∷ all_routes) sel =
    let taken : Option Selection = elim (update_from_route sel.filters_available r) [
      | none ↦ none
      | some filters_available ↦ select_routes filters_applied all_routes (record {
        routes = sel.routes ++ r ∷ [];
        filters_available = filters_available;
        has_ip4 = sel.has_ip4 || nat_beq r.addr_family 1;
        has_ip6 = sel.has_ip6 || nat_beq r.addr_family 2;
      })
    ] in
    let skipped : Option Selection = select_routes filters_applied all_routes sel in
    elim (match_route filters_applied (route_filterable r)) [
      | none ↦ none
      | some matched ↦ if matched then taken else skipped
    ]

-- The filters of a response: those that the routes offer, less the applied ones, and the applied
-- ones
pub record Offer : Type 0 where
  pub available : SearchFilters
  pub applied : SearchFilters

-- The calls after the loop
unfoldable pub offer_filters : SearchFilters → SearchFilters → Bool → Bool → Option Offer
offer_filters filters_applied filters_available has_ip4 has_ip6 =
    elim (set_filter_addr_families filters_available has_ip4 has_ip6) [
      | none ↦ none
      | some offered ↦ elim (merge_properties filters_applied offered) [
        | none ↦ none
        | some applied ↦ elim (sub offered applied) [
          | none ↦ none
          | some available ↦ some (record { available = available; applied = applied })
        ]
      ]
    ]

-- PaginatedRoutesResponse
pub record PaginatedRoutes : Type 0 where
  pub routes : RoutesResponse
  pub filters : Offer
  pub pagination : Pagination

-- The handlers up to the filters: the routes by their next hop
unfoldable pub routes_of_source :
    (RoutesResponse → List Route)
    → (Text → Option (Reply RoutesResponse))
    → Text
    → Values
    → Reply (List Route)
routes_of_source part instance_by_id id query = elim (validate_source_id id) [
  | invalid failed ↦ error_reply (validation_failed (reason_text failed))
  | valid rs_id ↦ elim (instance_by_id rs_id) [
    | none ↦ error_reply resource_not_found
    | some source ↦
        source >>= λ result. unless_panic (filter_next_hop_gateway query "q" (part result))
  ]
]

-- The page that a handler answers with
unfoldable pub page_of :
    (List Route → RoutesResponse) → ℤ → Values → List Route → Offer → Reply PaginatedRoutes
page_of response page_size query routes filters = do
  page ← unless_panic (query_must_int query "page" (pos 0))
  result ← unless_panic (paginate routes page page_size)
  replied (record { routes = response result.0; filters = filters; pagination = result.1 })

-- The common body of the handlers: `part` is the part of the routes that the handler lists,
-- `response` the response with it, and `instance_by_id` gives the answer of the source.
unfoldable pub list_routes :
    (QueryError → Text)
    → (RoutesResponse → List Route)
    → (List Route → RoutesResponse)
    → ℤ
    → (Text → Option (Reply RoutesResponse))
    → Text
    → Values
    → Reply PaginatedRoutes
list_routes text part response page_size instance_by_id id query = do
  all_routes ← routes_of_source part instance_by_id id query
  filters_applied ← unless_refused text (filters_from_query query)
  sel ← unless_panic (
      select_routes filters_applied all_routes (record {
        routes = [];
        filters_available = new_search_filters;
        has_ip4 = false;
        has_ip6 = false;
      }))
  filters ←
      unless_panic (offer_filters filters_applied sel.filters_available sel.has_ip4 sel.has_ip6)
  page_of response page_size query sel.routes filters

-- apiRoutesListReceived
unfoldable pub api_routes_list_received :
    (QueryError → Text)
    → ℤ
    → (Text → Option (Reply RoutesResponse))
    → Text
    → Values
    → Reply PaginatedRoutes
unfolding list_routes
api_routes_list_received text routes_accepted_page_size routes_received id query =
    list_routes text (λ result. result.imported)
      (λ routes. record { imported = routes; filtered = []; not_exported = [] })
      routes_accepted_page_size routes_received id query

-- apiRoutesListFiltered
unfoldable pub api_routes_list_filtered :
    (QueryError → Text)
    → ℤ
    → (Text → Option (Reply RoutesResponse))
    → Text
    → Values
    → Reply PaginatedRoutes
unfolding list_routes
api_routes_list_filtered text routes_filtered_page_size routes_filtered id query =
    list_routes text (λ result. result.filtered)
      (λ routes. record { imported = []; filtered = routes; not_exported = [] })
      routes_filtered_page_size routes_filtered id query

-- apiRoutesListNotExported
unfoldable pub api_routes_list_not_exported :
    (QueryError → Text)
    → ℤ
    → (Text → Option (Reply RoutesResponse))
    → Text
    → Values
    → Reply PaginatedRoutes
unfolding list_routes
api_routes_list_not_exported text routes_not_exported_page_size routes_not_exported id query =
    list_routes text (λ result. result.not_exported)
      (λ routes. record { imported = []; filtered = []; not_exported = routes })
      routes_not_exported_page_size routes_not_exported id query
