-- ===== src/Http/Search/Pages.antt =====
-- The pages of a search.
use Prim.Native.String.{String}
use alice_lg.Common.{
  ℕ, ◌+◌, ◌*◌, ◌^◌, ◌<◌, ◌-◌, ◌/◌, ◌≡◌, Bool, not, ◌&&◌, ◌||◌, Option, none, some, List, [], ◌∷◌,
  ◌++◌, any, keep, length, ltb, nat_beq, nat_eq, string_eq, if◌then◌else◌, ◌>>=◌,
}
use alice_lg.Common.Ints.{pos, leb_ℤ}
use alice_lg.Common.Texts.{Text, to_lower}
use alice_lg.Api.Route.{LookupRoute, lookup_filterable}
use alice_lg.Api.Filters.Match.{search_key_communities}
use alice_lg.Api.Filters.Collection.{SearchFilters, new_search_filters}
use alice_lg.Api.Filters.Six.{Groups, listed, verdict}
use alice_lg.Store.Memory.Routes.{skipped, routes}
use alice_lg.Store.Memory.Routes.Search.{all_routes}
use alice_lg.Http.Query.{Values, query_must_int}
use alice_lg.Http.Pagination.Pages.{items}
use alice_lg.Http.Errors
use alice_lg.Http.Errors.{Reply, replied, panicked}
use alice_lg.Http.Routes.{Offer, offer_filters}
use alice_lg.Http.Search.{
  Server, Split, offer_route, is_filtered, is_imported, RoutesLookup, LookupResponse,
}

abbrev pub is_ip4 : LookupRoute → Bool
is_ip4 r = nat_beq r.route.addr_family 1

abbrev pub is_ip6 : LookupRoute → Bool
is_ip6 r = nat_beq r.route.addr_family 2

-- The filters that some routes offer
unfoldable pub offered_by : Bool → SearchFilters → List LookupRoute → Option SearchFilters
offered_by can s [] = some s
offered_by can s (r ∷ rs) = offer_route can s r >>= λ t. offered_by can t rs

-- The filters of a response with these routes
unfoldable pub offer_of : Bool → SearchFilters → List LookupRoute → Option Offer
offer_of can applied found = do
  available ← offered_by can new_search_filters found
  offer_filters applied available (any is_ip4 found) (any is_ip6 found)

-- What the loop makes of the routes
splitted : Bool → Split → List LookupRoute → Option Split
splitted can sp found = do
  available ← offered_by can sp.filters_available found
  some (record {
    imported = sp.imported ++ keep is_imported found;
    filtered = sp.filtered ++ keep is_filtered found;
    filters_available = available;
    has_ip4 = sp.has_ip4 || any is_ip4 found;
    has_ip6 = sp.has_ip6 || any is_ip6 found;
  })

-- Whether the filters by communities are offered: for few routes, or if there is a filter by source
abbrev pub offers_communities : Server → Groups → List LookupRoute → Bool
offers_communities s g found =
    ltb 0 (length g.by_source.filters) || leb_ℤ (pos (length found)) s.filter_cutoff

-- Page `p`, of size `size`, of a part of the routes
abbrev pub page_of : (List LookupRoute → List LookupRoute) → List LookupRoute → ℕ → ℕ → RoutesLookup
page_of sort part p size = record {
  routes = items (sort part) p size;
  pagination = record {
    page = pos p;
    page_size = pos size;
    total_pages = pos ((length part + size - 1) / size);
    total_results = length part;
  };
}

-- The reply with these pages for the routes found
abbrev pub search_reply :
    (List LookupRoute → List LookupRoute)
    → Server
    → Groups
    → List LookupRoute
    → ℕ
    → ℕ
    → ℕ
    → ℕ
    → Reply LookupResponse
search_reply sort s g found p q a b =
    let can = offers_communities s g found in
    elim (offer_of can (listed g) found) [
      | none ↦ panicked
      | some o ↦ replied (record {
        imported = page_of sort (keep is_imported found) p a;
        filtered = page_of sort (keep is_filtered found) q b;
        filters = o;
        filters_not_available = if can then [] else search_key_communities ∷ [];
      })
    ]

-- What a search by prefix finds in the backend of the routes store
abbrev pub found_by_prefix : Server → Groups → Text → List LookupRoute
found_by_prefix s g prefix =
    keep (λ r. not (skipped (to_lower prefix) r) && verdict g (lookup_filterable r))
      (all_routes s.routes_store.backend)

-- A request for page `p` of a parameter, of size `size`
pub record Asks (query : Values) (param : String) (p size : ℕ) : Type 0 where
  pub number : query_must_int query param (pos 0) ≡ some (pos p)
  pub some_size : 0 < size
  pub fits : p * size + size < 2 ^ 63
