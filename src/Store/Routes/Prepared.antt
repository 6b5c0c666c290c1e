-- ===== src/Store/Routes/Prepared.antt =====
-- What updateSource makes of the routes of a source.
use alice_lg.Common.{
  ◌≡◌, refl, ap, Bool, true, false, none, some, List, [], ◌∷◌, ◌++◌, map, keep, All, nat_eq,
  list_eq, list_beq, if◌then◌else◌, Option-cases, inl, inr,
}
use alice_lg.Common.Assoc.{get, get-put}
use alice_lg.Common.Texts.{Text, codes}
use alice_lg.Api.Route.{Route, RoutesResponse, LookupRoute, LookupRouteServer, to_lookup_routes}
use alice_lg.Pools.Strings.{acquire}
use alice_lg.Store.Sources.{SourceConfig}
use alice_lg.Store.Memory.Neighbors.{NeighborIndex}
use alice_lg.Store.Memory.Routes.{RoutesBackend, set_routes}
use alice_lg.Store.Routes.{RoutesStore, prepare_routes}

-- The neighbor of a route is known.
abbrev pub is_known : NeighborIndex → Route → Bool
is_known index r = elim (get r.neighbor_id.target index) [ none ↦ false | some _ ↦ true ]

-- A route without its details
abbrev pub bare : Route → Route
bare r = record r { details = none }

-- Lookup routes for those of some routes whose neighbors are known: these routes without their
-- details, in their order, with their neighbors, a state and a route server
pub record IsLookup (rs : LookupRouteServer) (index : NeighborIndex) (state : Text)
    (routes : List Route) (ls : List LookupRoute) : Type 0 where
  pub routes_of : map (λ (l : LookupRoute). l.route) ls ≡ map bare (keep (is_known index) routes)
  pub all :
      All
        (λ l.
          (l.state ≡ state)
          × (l.route_server ≡ rs)
          × (get l.route.neighbor_id.target index ≡ some l.neighbor))
        ls

to_lookup_routes-IsLookup :
    (rs : LookupRouteServer) (index : NeighborIndex) (state : Text) (routes : List Route)
    → IsLookup rs index state routes (to_lookup_routes routes state rs index)
unfolding to_lookup_routes keep
to_lookup_routes-IsLookup rs index state [] = record { routes_of = refl; all = tt }
to_lookup_routes-IsLookup rs index state (r ∷ routes) =
    let rest = to_lookup_routes-IsLookup rs index state routes in
    elim (Option-cases (get r.neighbor_id.target index)) [
      | inl missing ↦
          rw (to_lookup_routes, keep, missing)
            (record { routes_of = rw (map, keep, missing) rest.routes_of; all = rest.all })
      | inr (n, found) ↦
          rw (to_lookup_routes, keep, found)
            (record {
              routes_of = rw (map, keep, found) (ap (λ l. bare r ∷ l) rest.routes_of);
              all = ((refl, refl, found), rest.all);
            })
    ]

-- A backend in which the routes of a refresh of a source replace its old ones: lookup routes for
-- the imported routes of known neighbors before those for the filtered ones, while the routes of
-- other sources stay
abbrev pub Replaced :
    RoutesStore → SourceConfig → RoutesResponse → NeighborIndex → RoutesBackend → Type 0
Replaced s src res index after =
    let rs : LookupRouteServer = record { id = (acquire src.id s.server_ids).1; name = src.name } in
    (imported : List LookupRoute) × (filtered : List LookupRoute) × IsLookup rs index
      (codes "imported") res.imported imported
    × IsLookup rs index (codes "filtered") res.filtered filtered
    × ((id : Text)
        → get id after
          ≡ (if list_beq src.id id then some (imported ++ filtered) else get id s.backend))

pub prepare_routes-Replaced :
    (s : RoutesStore) (src : SourceConfig) (res : RoutesResponse) (index : NeighborIndex)
    → Replaced s src res index (set_routes s.backend src.id (prepare_routes s src res index).1)
unfolding prepare_routes set_routes
prepare_routes-Replaced s src res index =
    let rs : LookupRouteServer = record { id = (acquire src.id s.server_ids).1; name = src.name } in
    let imported = to_lookup_routes res.imported (codes "imported") rs index in
    let filtered = to_lookup_routes res.filtered (codes "filtered") rs index in
    (
      imported,
      filtered,
      to_lookup_routes-IsLookup rs index (codes "imported") res.imported,
      to_lookup_routes-IsLookup rs index (codes "filtered") res.filtered,
      λ id. get-put src.id id (imported ++ filtered) s.backend,
    )
