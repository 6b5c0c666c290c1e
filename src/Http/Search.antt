-- ===== src/Http/Search.antt =====
-- pkg/http/api_endpoints_search.go, with MaybePrefix of pkg/decoders/prefix.go. `sort.Sort` is an
-- argument (it orders the routes by their networks), and so are the texts of the errors of the
-- filters. The status of the stores and the durations in the responses are left out.
pub mod Pages
use Prim.Native.String.{String}
use alice_lg.Common.{
  ℕ, ◌+◌, Bool, true, false, ◌||◌, ◌&&◌, not, Option, none, some, List, [], ◌∷◌, ◌++◌, length, any,
  all, ltb, leb, nat_beq, list_beq, nat_eq, string_eq, if◌then◌else◌,
}
use alice_lg.Common.Ints.{ℤ, pos, leb_ℤ}
use alice_lg.Common.Texts.{Text, codes, to_lower, contains}
use alice_lg.Api.Route.{Route, LookupRoute}
use alice_lg.Api.Neighbor.{Neighbor, NeighborFilter}
use alice_lg.Api.Filters.Query as Parsing
use alice_lg.Api.Filters.Query.{QueryError, filters_from_query, filters_from_tokens}
use alice_lg.Api.Filters.Match.{
  search_key_sources, search_key_communities, search_key_ext_communities,
  search_key_large_communities,
}
use alice_lg.Api.Filters.Collection.{
  SearchFilters, new_search_filters, combine, has_group, update_sources_from_lookup_route,
  update_asns_from_lookup_route, update_communities_from_lookup_route,
}
use alice_lg.Store.Memory.Routes.{Found, routes, too_many_routes}
use alice_lg.Store.Neighbors.{NeighborsStore, lookup_neighbors, filter_neighbors}
use alice_lg.Store.Routes.{RoutesStore, lookup_prefix, lookup_prefix_for_neighbors}
use alice_lg.Http.Query.{
  Values, Checked, valid, invalid, validate_query_string, validate_prefix_query,
  validate_neighbors_query, extract_filters, query_must_int,
}
use alice_lg.Http.Pagination.{Pagination, paginate}
use alice_lg.Http.Errors
use alice_lg.Http.Errors.{
  ApiError, validation_failed, reason_text, Reply, replied, error_reply, panicked, ◌>>=◌,
}
use alice_lg.Http.Routes.{Offer, offer_filters, unless_panic, unless_refused}

-- A character of the class [a-f0-9/], and of the class [\.:]
abbrev pub in_prefix : ℕ → Bool
in_prefix c = leb b'a' c && leb c b'f' || leb b'0' c && leb c b'9' || nat_beq c b'/'

abbrev pub is_separator : ℕ → Bool
is_separator c = nat_beq c b'.' || nat_beq c b':'

-- The number of matches of ([a-f0-9/]+[\.:]*)+, with whether a match goes on
unfoldable pub count_matches : Bool → Text → ℕ
count_matches open' [] = 0
count_matches open' (c ∷ s) =
    let started = count_matches true s in
    let closed = count_matches false s in
    if in_prefix c
    then (if open' then started else started + 1)
    else if open' && is_separator c
    then started
    else closed

-- MaybePrefix
unfoldable pub maybe_prefix : Text → Bool
unfolding to_lower contains count_matches any
maybe_prefix s =
    let t = to_lower s in
    if any (λ c. any (nat_beq c) (codes "ghijklmnopqrstuvwxyz][;'_")) t
    then false
    else if not (contains t (codes ":")) && not (contains t (codes "."))
    then false
    else nat_beq (count_matches false t) 1

-- What the handlers use of the server and its configuration
pub record Server : Type 0 where
  pub neighbors_store : NeighborsStore
  pub routes_store : RoutesStore
  pub filter_cutoff : ℤ
  pub routes_accepted_page_size : ℤ
  pub routes_filtered_page_size : ℤ

abbrev pub unless_invalid : Checked → Reply Text
unless_invalid (valid v) = replied v
unless_invalid (invalid failed) = error_reply (validation_failed (reason_text failed))

-- The error of FiltersFromTokens, as a failed validation
abbrev pub unless_refused_tokens : {A : Type 0} → (QueryError → Text) → Parsing.Outcome A → Reply A
unless_refused_tokens text (Parsing.parsed a) = replied a
unless_refused_tokens text (Parsing.refused e) = error_reply (validation_failed (text e))
unless_refused_tokens text Parsing.panicked = panicked

-- Whether there is a filter by communities of some kind
unfoldable pub has_communities : SearchFilters → Option Bool
has_communities s = elim (has_group s search_key_communities) [
  | none ↦ none
  | some true ↦ some true
  | some false ↦ elim (has_group s search_key_ext_communities) [
    | none ↦ none
    | some true ↦ some true
    | some false ↦ has_group s search_key_large_communities
  ]
]

abbrev pub is_empty : Text → Bool
is_empty [] = true
is_empty (_ ∷ _) = false

-- lookupEmptyQuery
unfoldable pub lookup_empty_query : Text → SearchFilters → Option Bool
lookup_empty_query q s = if is_empty q then has_communities s else some false

-- The answer of the store
abbrev pub unless_too_many : Option Found → Reply (List LookupRoute)
unless_too_many none = panicked
unless_too_many (some too_many_routes) = error_reply ApiError.too_many_routes
unless_too_many (some (routes found)) = replied found

-- The query of the stores: by prefix, or by neighbors
unfoldable pub lookup_routes : Server → Text → SearchFilters → Bool → Reply (List LookupRoute)
lookup_routes s q filters empty_query =
    let by_prefix : Reply (List LookupRoute) =
      (if empty_query then replied q else unless_invalid (validate_prefix_query q))
      >>= (λ prefix. unless_too_many (lookup_prefix s.routes_store prefix filters)) in
    let by_neighbors : Reply (List LookupRoute) =
      unless_invalid (validate_neighbors_query q) >>= (λ name. unless_panic (
        lookup_prefix_for_neighbors s.routes_store (lookup_neighbors s.neighbors_store name)
          filters)) in
    if maybe_prefix q || empty_query then by_prefix else by_neighbors

-- What the loop over the routes computes
pub record Split : Type 0 where
  pub imported : List LookupRoute
  pub filtered : List LookupRoute
  pub filters_available : SearchFilters
  pub has_ip4 : Bool
  pub has_ip6 : Bool

-- The available filters after one route
unfoldable pub offer_route : Bool → SearchFilters → LookupRoute → Option SearchFilters
offer_route can_filter_communities s r = elim (update_sources_from_lookup_route s r) [
  | none ↦ none
  | some by_source ↦ elim (update_asns_from_lookup_route by_source r) [
    | none ↦ none
    | some by_asn ↦
        if can_filter_communities
        then update_communities_from_lookup_route by_asn r
        else some by_asn
  ]
]

-- The switch on the state of a route
abbrev pub is_filtered : LookupRoute → Bool
is_filtered r = list_beq r.state (codes "filtered")

abbrev pub is_imported : LookupRoute → Bool
is_imported r = list_beq r.state (codes "imported")

abbrev pub sorted_in : Split → LookupRoute → SearchFilters → Split
sorted_in sp r available = record {
  imported =
      if is_filtered r
      then sp.imported
      else if is_imported r
      then sp.imported ++ r ∷ []
      else sp.imported;
  filtered = if is_filtered r then sp.filtered ++ r ∷ [] else sp.filtered;
  filters_available = available;
  has_ip4 = sp.has_ip4 || nat_beq r.route.addr_family 1;
  has_ip6 = sp.has_ip6 || nat_beq r.route.addr_family 2;
}

-- The loop over the routes
unfoldable pub split_routes : Bool → List LookupRoute → Split → Option Split
split_routes can_filter_communities [] sp = some sp
split_routes can_filter_communities (r ∷ found) sp =
    elim (offer_route can_filter_communities sp.filters_available r) [
      | none ↦ none
      | some available ↦ split_routes can_filter_communities found (sorted_in sp r available)
    ]

-- canFilterCommunities
unfoldable pub can_filter_communities : Server → SearchFilters → List LookupRoute → Option Bool
can_filter_communities s applied found = elim (has_group applied search_key_sources) [
  | none ↦ none
  | some by_source ↦ some (by_source || leb_ℤ (pos (length found)) s.filter_cutoff)
]

-- RoutesLookup
pub record RoutesLookup : Type 0 where
  pub routes : List LookupRoute
  pub pagination : Pagination

-- PaginatedRoutesLookupResponse
pub record LookupResponse : Type 0 where
  pub imported : RoutesLookup
  pub filtered : RoutesLookup
  pub filters : Offer
  pub filters_not_available : List String

-- The page of one part of the routes
unfoldable pub lookup_page :
    (List LookupRoute → List LookupRoute)
    → Values
    → String
    → ℤ
    → List LookupRoute
    → Reply RoutesLookup
lookup_page sort query param page_size found = do
  page ← unless_panic (query_must_int query param (pos 0))
  result ← unless_panic (paginate (sort found) page page_size)
  replied (record { routes = result.0; pagination = result.1 })

-- The response for the routes that were found
unfoldable pub lookup_response :
    (List LookupRoute → List LookupRoute)
    → Server
    → Values
    → SearchFilters
    → List LookupRoute
    → Reply LookupResponse
lookup_response sort s query applied found = do
  can_filter ← unless_panic (can_filter_communities s applied found)
  sp ← unless_panic (
      split_routes can_filter found (record {
        imported = [];
        filtered = [];
        filters_available = new_search_filters;
        has_ip4 = false;
        has_ip6 = false;
      }))
  filters ← unless_panic (offer_filters applied sp.filters_available sp.has_ip4 sp.has_ip6)
  imported ← lookup_page sort query "page_imported" s.routes_accepted_page_size sp.imported
  filtered ← lookup_page sort query "page_filtered" s.routes_filtered_page_size sp.filtered
  replied (record {
    imported = imported;
    filtered = filtered;
    filters = filters;
    filters_not_available = if can_filter then [] else search_key_communities ∷ [];
  })

-- The query and the filters of a request
unfoldable pub applied_filters : (QueryError → Text) → Values → Reply (Text × SearchFilters)
applied_filters text query = do
  value ← unless_invalid (validate_query_string query "q")
  from_tokens ← unless_refused_tokens text (filters_from_tokens (extract_filters value).1)
  from_query ← unless_refused text (filters_from_query query)
  combined ← unless_panic (combine from_query from_tokens)
  replied ((extract_filters value).0, combined)

-- apiLookupPrefixGlobal
unfoldable pub api_lookup_prefix_global :
    (List LookupRoute → List LookupRoute)
    → (QueryError → Text)
    → Server
    → Values
    → Reply LookupResponse
api_lookup_prefix_global sort text s query = do
  request ← applied_filters text query
  empty_query ← unless_panic (lookup_empty_query request.0 request.1)
  found ← lookup_routes s request.0 request.1 empty_query
  lookup_response sort s query request.1 found

-- apiLookupNeighborsGlobal; `sort` is that of the neighbors.
unfoldable pub api_lookup_neighbors_global :
    (List Neighbor → List Neighbor) → Server → NeighborFilter → List Neighbor
api_lookup_neighbors_global sort s filter = sort (filter_neighbors s.neighbors_store filter)
