-- ===== src/Http/Routes/Pages.antt =====
-- The pages of the routes of a neighbor.
use alice_lg.Common.{
  ℕ, ◌+◌, ◌*◌, ◌^◌, ◌<◌, ◌-◌, ◌/◌, ◌≡◌, refl, ◌∙◌, Bool, false, ◌||◌, Option, none, some, List, [],
  ◌∷◌, ◌++◌, any, keep, length, nat_beq, nat_eq, string_eq, arith, append_assoc, append-nil,
  Bool-cases, Option-cases, inl, inr, ◌>>=◌,
}
use alice_lg.Common.Ints.{pos}
use alice_lg.Common.Texts.{Text}
use alice_lg.Api.Route.{Route, RoutesResponse, route_filterable}
use alice_lg.Api.Filters.Query.{QueryError, filters_from_query, parsed}
use alice_lg.Api.Filters.Collection.{
  SearchFilters, new_search_filters, match_route, update_from_route,
}
use alice_lg.Api.Filters.Six.{Groups, listed, verdict, match_route-verdict}
use alice_lg.Http.Query.{Values, query_must_int}
use alice_lg.Http.Pagination.{info}
use alice_lg.Http.Pagination.Pages.{items, paginate_exact}
use alice_lg.Http.Errors
use alice_lg.Http.Errors.{ApiError, Reply, replied, error_reply, panicked}
use alice_lg.Http.Routes.{
  Selection, select_routes, Offer, offer_filters, PaginatedRoutes, routes_of_source, page_of,
  list_routes, unless_panic, api_routes_list_received, api_routes_list_filtered,
  api_routes_list_not_exported,
}

abbrev pub is_ip4 : Route → Bool
is_ip4 r = nat_beq r.addr_family 1

abbrev pub is_ip6 : Route → Bool
is_ip6 r = nat_beq r.addr_family 2

-- The filters that some routes offer
unfoldable pub offered_by : SearchFilters → List Route → Option SearchFilters
offered_by s [] = some s
offered_by s (r ∷ rs) = update_from_route s r >>= λ t. offered_by t rs

-- The filters of a response with these routes
unfoldable pub offer_of : SearchFilters → List Route → Option Offer
offer_of applied routes = do
  available ← offered_by new_search_filters routes
  offer_filters applied available (any is_ip4 routes) (any is_ip6 routes)

-- What the loop makes of the matching routes
selected : Selection → List Route → Option Selection
selected sel routes = do
  available ← offered_by sel.filters_available routes
  some (record {
    routes = sel.routes ++ routes;
    filters_available = available;
    has_ip4 = sel.has_ip4 || any is_ip4 routes;
    has_ip6 = sel.has_ip6 || any is_ip6 routes;
  })

-- A matching route before the others
selected-cons :
    (sel : Selection) (r : Route) (available : SearchFilters) (rs : List Route)
    → selected
        (record {
          routes = sel.routes ++ r ∷ [];
          filters_available = available;
          has_ip4 = sel.has_ip4 || is_ip4 r;
          has_ip6 = sel.has_ip6 || is_ip6 r;
        })
        rs
      ≡ (do
        offered ← offered_by available rs
        some (record {
          routes = sel.routes ++ r ∷ rs;
          filters_available = offered;
          has_ip4 = sel.has_ip4 || any is_ip4 (r ∷ rs);
          has_ip6 = sel.has_ip6 || any is_ip6 (r ∷ rs);
        }))
unfolding selected any
selected-cons sel r available rs = elim (Option-cases (offered_by available rs)) [
  | inl panics ↦ rw panics refl
  | inr (offered, run) ↦ rw (run, append_assoc) (ground arith)
]

module _ (applied : SearchFilters) (matched : Route → Bool)
    (decided : (r : Route) → match_route applied (route_filterable r) ≡ some (matched r)) where
  select_routes_lem :
      (all_routes : List Route) (sel : Selection)
      → select_routes applied all_routes sel ≡ selected sel (keep matched all_routes)
  unfolding select_routes selected offered_by keep any
  select_routes_lem [] sel = rw append-nil (ground arith)
  select_routes_lem (r ∷ all_routes) sel = elim (Bool-cases (matched r)) [
    | inl hit ↦
        rw (select_routes, decided r, hit)
          (elim (Option-cases (update_from_route sel.filters_available r)) [
            | inl panics ↦ rw panics refl
            | inr (available, updated) ↦ rw updated (
                select_routes_lem all_routes _
                ∙ selected-cons sel r available (keep matched all_routes))
          ])
    | inr miss ↦ rw (select_routes, decided r, miss) (select_routes_lem all_routes sel)
  ]

-- The routes of a list that match the filters
abbrev pub matching : Groups → List Route → List Route
matching g = keep (λ r. verdict g (route_filterable r))

-- The reply with page `p`, of size `s`, of some routes
abbrev pub page_reply :
    Groups → (List Route → RoutesResponse) → ℕ → ℕ → List Route → Reply PaginatedRoutes
page_reply g response p s routes = elim (offer_of (listed g) routes) [
  | none ↦ panicked
  | some o ↦ replied (record {
    routes = response (items routes p s);
    filters = o;
    pagination = info routes (pos p) (pos s) (pos ((length routes + s - 1) / s));
  })
]

-- The selection before the loop
abbrev start : Selection
start = record {
  routes = [];
  filters_available = new_search_filters;
  has_ip4 = false;
  has_ip6 = false;
}

module _ (g : Groups) (query : Values) (p s : ℕ)
    (page_number : query_must_int query "page" (pos 0) ≡ some (pos p)) (some_size : 0 < s)
    (fits : p * s + s < 2 ^ 63) where
  page_of_lem :
      (response : List Route → RoutesResponse) (routes : List Route) (o : Offer)
      → page_of response (pos s) query routes o
        ≡ replied (record {
          routes = response (items routes p s);
          filters = o;
          pagination = info routes (pos p) (pos s) (pos ((length routes + s - 1) / s));
        })
  unfolding page_of
  page_of_lem response routes o = rw (page_number, paginate_exact routes p s some_size fits) refl

  finish :
      (response : List Route → RoutesResponse) (routes : List Route)
      → Errors.◌>>=◌ (unless_panic (selected start routes)) (λ sel.
        Errors.◌>>=◌
          (unless_panic (offer_filters (listed g) sel.filters_available sel.has_ip4 sel.has_ip6))
          (λ o. page_of response (pos s) query sel.routes o))
        ≡ page_reply g response p s routes
  unfolding selected offer_of
  finish response routes = elim (Option-cases (offered_by new_search_filters routes)) [
    | inl panics ↦ rw (page_reply, offer_of, panics) refl
    | inr (a, run) ↦
        rw (page_reply, offer_of, run)
          (elim (Option-cases
            (offer_filters (listed g) a (any is_ip4 routes) (any is_ip6 routes))) [
              | inl panics ↦ rw panics refl
              | inr (o, made) ↦ rw made (page_of_lem response routes o)
            ])
  ]

  list_routes_lem :
      (text : QueryError → Text) (part : RoutesResponse → List Route)
      (response : List Route → RoutesResponse)
      (instance_by_id : Text → Option (Reply RoutesResponse)) (id : Text) (all_routes : List Route)
      → filters_from_query query ≡ parsed (listed g)
      → routes_of_source part instance_by_id id query ≡ replied all_routes
      → list_routes text part response (pos s) instance_by_id id query
        ≡ page_reply g response p s (matching g all_routes)
  unfolding list_routes selected offer_of
  list_routes_lem text part response instance_by_id id all_routes filters found =
      rw
        (
          found,
          filters,
          select_routes_lem (listed g) (λ r. verdict g (route_filterable r))
              (λ r. match_route-verdict g (route_filterable r)) all_routes,
        )
        (finish response (matching g all_routes))

-- For a request whose filters parse, for page `p` of a page size that is not 0 (the two not so
-- large that their product leaves an int), and once the source has given its routes and the search
-- has kept some of them: each of the three handlers answers with exactly page `p` of those that match
-- the filters, in their order and in its own part of the response; it counts the matching routes
-- of all pages and the pages, rounded up; and the filters it offers are those of the
-- matching routes, not of the page (it panics only where the filters of these routes do).
pub api_routes_list_exact :
    (g : Groups) (query : Values) (p s : ℕ) (text : QueryError → Text)
    (instance_by_id : Text → Option (Reply RoutesResponse)) (id : Text) (i f n : List Route)
    → query_must_int query "page" (pos 0) ≡ some (pos p)
    → 0 < s
    → p * s + s < 2 ^ 63
    → filters_from_query query ≡ parsed (listed g)
    → routes_of_source (λ r. r.imported) instance_by_id id query ≡ replied i
    → routes_of_source (λ r. r.filtered) instance_by_id id query ≡ replied f
    → routes_of_source (λ r. r.not_exported) instance_by_id id query ≡ replied n
    → (api_routes_list_received text (pos s) instance_by_id id query
        ≡ page_reply g
            (λ l. record { imported = l; filtered = []; not_exported = [] })
            p
            s
            (matching g i))
      × (api_routes_list_filtered text (pos s) instance_by_id id query
          ≡ page_reply g
              (λ l. record { imported = []; filtered = l; not_exported = [] })
              p
              s
              (matching g f))
      × (api_routes_list_not_exported text (pos s) instance_by_id id query
          ≡ page_reply g
              (λ l. record { imported = []; filtered = []; not_exported = l })
              p
              s
              (matching g n))
unfolding api_routes_list_received api_routes_list_filtered api_routes_list_not_exported
api_routes_list_exact g query p s text inst id i f n number size fits filters at_i at_f at_n =
    let run = list_routes_lem g query p s number size fits text in
    (run _ _ inst id i filters at_i, run _ _ inst id f filters at_f, run _ _ inst id n filters at_n)
