-- ===== src/Store/Memory/Routes/Search.antt =====
-- What `FindByPrefix` finds, and when it refuses.
use alice_lg.Common.{
  ℕ, ◌+◌, ◌≡◌, refl, ap, ◌∙◌, sym, Bool, false, not, ◌&&◌, some, List, [], ◌∷◌, ◌++◌, length, keep,
  if◌then◌else◌, arith, append_assoc, append-nil, length-append, keep-append, Bool-cases, inl, inr,
}
use mathlib.Core.Path.{subst}
use alice_lg.Common.Texts.{Text, to_lower}
use alice_lg.Api.Route.{LookupRoute, lookup_filterable}
use alice_lg.Api.Filters.Collection.{SearchFilters, match_route}
use alice_lg.Api.Filters.Six.{Groups, listed, verdict, match_route-verdict}
use alice_lg.Store.Memory.Routes.{
  RoutesBackend, Found, routes, too_many_routes, Scan, more, exceeded, at_limit, skipped,
  scan_routes, scan_sources, find_by_prefix,
}

-- The routes of all sources, in the order of the iteration
abbrev pub all_routes : RoutesBackend → List LookupRoute
all_routes [] = []
all_routes ((_, source) ∷ r) = source ++ all_routes r

-- The answer for a list of matching routes
abbrev pub answer : ℕ → List LookupRoute → Found
answer limit found = if at_limit limit (length found) then too_many_routes else routes found

module _ (prefix : Text) (filters : SearchFilters) (limit : ℕ) (matched : LookupRoute → Bool)
    (decided : (r : LookupRoute)
      → match_route filters (lookup_filterable r) ≡ some (matched r)) where
  abbrev pub wanted : LookupRoute → Bool
  wanted r = not (skipped prefix r) && matched r

  -- Below the limit the scan of a source appends its matches; otherwise it stops.
  abbrev scanned : List LookupRoute → Scan
  scanned found = if at_limit limit (length found) then exceeded else more found (length found)

  Ends : List LookupRoute → List LookupRoute → ℕ → Type 0
  Ends source result count =
      scan_routes prefix filters limit source result count
      ≡ some (scanned (result ++ keep wanted source))

  -- The round that takes a route
  take_one :
      (route : LookupRoute) (source result : List LookupRoute)
      → (at_limit limit (length (result ++ route ∷ [])) ≡ false
          → Ends source (result ++ route ∷ []) (length (result ++ route ∷ [])))
      → (if at_limit limit (length result + 1)
          then some exceeded
          else scan_routes prefix filters limit source (result ++ route ∷ []) (length result + 1))
        ≡ some (scanned (result ++ route ∷ keep wanted source))
  unfolding Ends
  take_one route source result step =
      let one_more : length (result ++ route ∷ []) ≡ length result + 1 =
        omega (arith, length-append result (route ∷ [])) in
      elim (Bool-cases (at_limit limit (length result + 1))) [
        | inl full ↦ rw full (ground (arith, length-append result (route ∷ keep wanted source)))
        | inr room ↦ rw room (
            subst
              (λ (n : ℕ).
                scan_routes prefix filters limit source (result ++ route ∷ []) n
                ≡ some (scanned ((result ++ route ∷ []) ++ keep wanted source)))
              one_more (step (rw one_more room))
            ∙ ap (λ l. some (scanned l)) (append_assoc result (route ∷ []) (keep wanted source)))
      ]

  scan_lem :
      (source result : List LookupRoute)
      → at_limit limit (length result) ≡ false
      → Ends source result (length result)
  unfolding Ends scan_routes keep
  scan_lem [] result below = rw append-nil (ground arith)
  scan_lem (route ∷ source) result below = elim (Bool-cases (skipped prefix route)) [
    | inl skip ↦ rw skip (scan_lem source result below)
    | inr keep' ↦
        rw (keep', decided route)
          (elim (Bool-cases (matched route)) [
            | inl yes' ↦
                rw yes' (take_one route source result (scan_lem source (result ++ route ∷ [])))
            | inr no' ↦ rw no' (scan_lem source result below)
          ])
  ]

  sources_lem :
      (r : RoutesBackend) (result : List LookupRoute)
      → at_limit limit (length result) ≡ false
      → scan_sources prefix filters limit r result (length result)
        ≡ some (answer limit (result ++ keep wanted (all_routes r)))
  unfolding scan_sources Ends keep
  sources_lem [] result below = rw (append-nil, below) refl
  sources_lem ((k, source) ∷ r) result below =
      let found : List LookupRoute = result ++ keep wanted source in
      let regroup : result ++ keep wanted (source ++ all_routes r)
          ≡ found ++ keep wanted (all_routes r) =
        ap (◌++◌ result) (keep-append wanted source (all_routes r))
        ∙ sym (append_assoc result (keep wanted source) (keep wanted (all_routes r))) in
      rw (below, scan_lem source result below, regroup)
        (elim (Bool-cases (at_limit limit (length found))) [
          | inl full ↦ rw full (ground (arith, length-append found (keep wanted (all_routes r))))
          | inr room ↦ rw room (sources_lem r found room)
        ])

-- Given the verdict of the filters on each route, the search finds the matching routes or reports
-- that there are too many.
find_by_prefix_lem :
    (r : RoutesBackend) (prefix : Text) (filters : SearchFilters) (limit : ℕ)
    (matched : LookupRoute → Bool)
    → ((route : LookupRoute) → match_route filters (lookup_filterable route) ≡ some (matched route))
    → find_by_prefix r prefix filters limit
      ≡ some (
          answer limit
            (keep (λ route. not (skipped (to_lower prefix) route) && matched route) (all_routes r)))
unfolding find_by_prefix
find_by_prefix_lem r prefix filters limit matched decided =
    sources_lem (to_lower prefix) filters limit matched decided r [] (ground arith)

-- With filters in the six groups, the search by prefix finds exactly the routes with the prefix
-- (case aside) that satisfy all groups, in the order of the iteration over the sources, if there are
-- fewer of them than the limit or the limit is 0; otherwise it reports that there are too many.
pub find_by_prefix_exact :
    (r : RoutesBackend) (prefix : Text) (g : Groups) (limit : ℕ)
    → find_by_prefix r prefix (listed g) limit
      ≡ some (
          answer limit (
            keep
              (λ route.
                not (skipped (to_lower prefix) route) && verdict g (lookup_filterable route))
              (all_routes r)))
find_by_prefix_exact r prefix g limit =
    find_by_prefix_lem r prefix (listed g) limit (λ route. verdict g (lookup_filterable route))
      (λ route. match_route-verdict g (lookup_filterable route))
