-- ===== src/Store/Routes/Lookup.antt =====
-- The routes of some neighbors: a search by pointers that is one by texts.
use alice_lg.Common.{
  ◌≡◌, refl, ◌∙◌, ap, Bool, false, ◌&&◌, none, some, List, [], ◌∷◌, ◌++◌, map, any, keep, All,
  nat_eq, list_eq, list_beq, list_beq_iff, arith, Option-cases, inl, inr,
}
use alice_lg.Common.Assoc.{Assoc}
use alice_lg.Common.Texts.{Text}
use alice_lg.Api.Neighbor.{Neighbor}
use alice_lg.Api.Route.{LookupRoute, NeighborQuery, match_neighbor_query, lookup_filterable}
use alice_lg.Api.Filters.Six.{Groups, listed, verdict}
use alice_lg.Pools.Strings.{StringPool, get_pointer}
use alice_lg.Pools.Strings.Identity.{IsDistinct, both_stored}
use alice_lg.Store.Memory.Routes.Search.{all_routes}
use alice_lg.Store.Memory.Routes.Peers.{same_query, Different, sought, find_by_neighbors_exact}
use alice_lg.Store.Routes.{
  RoutesStore, new_neighbor_query, queries_at, queries_of, lookup_prefix_for_neighbors,
}

-- The ids of a route stand in the pools, under their texts.
pub record IsPooledIn (neighbor_ids server_ids : StringPool) (r : LookupRoute) : Type 0 where
  pub neighbor : get_pointer r.route.neighbor_id.target neighbor_ids ≡ some r.route.neighbor_id
  pub server : get_pointer r.route_server.id.target server_ids ≡ some r.route_server.id

-- A routes store with pools whose texts have pointers of their own, which have the ids of all routes
pub record IsPooled (s : RoutesStore) : Type 0 where
  pub neighbors : IsDistinct s.neighbor_ids
  pub servers : IsDistinct s.server_ids
  pub stored : All (IsPooledIn s.neighbor_ids s.server_ids) (all_routes s.backend)

-- The pairs of a source and a neighbor in the results of a search for neighbors
abbrev pub pairs_of : Assoc Text (List Neighbor) → List (Text × Text)
pairs_of [] = []
pairs_of ((source_id, ns) ∷ results) =
    map (λ (n : Neighbor). (source_id, n.id)) ns ++ pairs_of results

abbrev pub same_pair : Text × Text → Text × Text → Bool
same_pair p q = list_beq p.0 q.0 && list_beq p.1 q.1

-- No pair comes twice.
abbrev pub Distinct : List (Text × Text) → Type 0
Distinct [] = Unit
Distinct (p ∷ ps) = All (λ q. same_pair p q ≡ false) ps × Distinct ps

-- Whether a route is of such a pair
abbrev pub is_of : LookupRoute → Text × Text → Bool
is_of r p = list_beq r.route_server.id.target p.0 && list_beq r.route.neighbor_id.target p.1

-- The queries for some pairs
queries_from : RoutesStore → List (Text × Text) → List NeighborQuery
queries_from s [] = []
queries_from s ((source_id, id) ∷ ps) =
    let rest = queries_from s ps in
    elim (new_neighbor_query s id source_id) [ none ↦ rest | some q ↦ q ∷ rest ]

module _ (s : RoutesStore) where
  queries_at_lem :
      (source_id : Text) (ns : List Neighbor) (ps : List (Text × Text))
      → queries_at s source_id ns ++ queries_from s ps
        ≡ queries_from s (map (λ (n : Neighbor). (source_id, n.id)) ns ++ ps)
  unfolding queries_at queries_from
  queries_at_lem source_id [] ps = refl
  queries_at_lem source_id (n ∷ ns) ps = elim (Option-cases (new_neighbor_query s n.id source_id)) [
    | inl missing ↦ rw (◌++◌, queries_at, queries_from, missing) (queries_at_lem source_id ns ps)
    | inr (q, made) ↦
        rw (◌++◌, queries_at, queries_from, made) (ap (◌∷◌ q) (queries_at_lem source_id ns ps))
  ]

  queries_of_lem :
      (results : Assoc Text (List Neighbor))
      → queries_of s results ≡ queries_from s (pairs_of results)
  unfolding queries_of queries_from
  queries_of_lem [] = refl
  queries_of_lem ((source_id, ns) ∷ results) =
      ap (◌++◌ (queries_at s source_id ns)) (queries_of_lem results)
      ∙ queries_at_lem source_id ns (pairs_of results)

  -- The pointers of a query are those of its texts.
  query_pointers :
      (source_id id : Text) (q : NeighborQuery)
      → new_neighbor_query s id source_id ≡ some q
      → (get_pointer id s.neighbor_ids ≡ some q.neighbor_id)
        × (get_pointer source_id s.server_ids ≡ some q.source_id)
  unfolding new_neighbor_query
  query_pointers source_id id q made = ground (arith, made)

  module _ (h : IsPooled s) where
    same_query_lem :
        (p p' : Text × Text) (q q' : NeighborQuery)
        → new_neighbor_query s p.1 p.0 ≡ some q
        → new_neighbor_query s p'.1 p'.0 ≡ some q'
        → same_query q q' ≡ same_pair p p'
    same_query_lem p p' q q' made made' =
        let (id, source) = query_pointers p.0 p.1 q made in
        let (id', source') = query_pointers p'.0 p'.1 q' made' in
        rw
          (
            (both_stored s.server_ids p.0 p'.0 q.source_id q'.source_id h.servers source source').0,
            (both_stored s.neighbor_ids p.1 p'.1 q.neighbor_id q'.neighbor_id h.neighbors id id').0,
          )
          refl

    -- A query is that of a pooled route exactly if the pair is.
    query_hit :
        (r : LookupRoute) (p : Text × Text) (q : NeighborQuery)
        → IsPooledIn s.neighbor_ids s.server_ids r
        → new_neighbor_query s p.1 p.0 ≡ some q
        → match_neighbor_query r q ≡ is_of r p
    unfolding match_neighbor_query
    query_hit r p q pooled made =
        let (id, source) = query_pointers p.0 p.1 q made in
        rw
          (
            (both_stored s.server_ids r.route_server.id.target p.0 r.route_server.id q.source_id
                h.servers pooled.server source).0,
            (both_stored s.neighbor_ids r.route.neighbor_id.target p.1 r.route.neighbor_id
                q.neighbor_id h.neighbors pooled.neighbor id).0,
          )
          (ground arith)

    -- A pair without a query is not that of a pooled route.
    no_query :
        (r : LookupRoute) (p : Text × Text)
        → IsPooledIn s.neighbor_ids s.server_ids r
        → new_neighbor_query s p.1 p.0 ≡ none
        → is_of r p ≡ false
    unfolding new_neighbor_query
    no_query r p pooled missing = ground (
      arith,
      missing,
      pooled.neighbor,
      pooled.server,
      list_beq_iff r.route_server.id.target p.0,
      list_beq_iff r.route.neighbor_id.target p.1,
    )

    any_hit :
        (r : LookupRoute) (ps : List (Text × Text))
        → IsPooledIn s.neighbor_ids s.server_ids r
        → any (match_neighbor_query r) (queries_from s ps) ≡ any (is_of r) ps
    unfolding any queries_from
    any_hit r [] pooled = refl
    any_hit r (p ∷ ps) pooled = elim (Option-cases (new_neighbor_query s p.1 p.0)) [
      | inl missing ↦ rw (queries_from, missing, no_query r p pooled missing) (any_hit r ps pooled)
      | inr (q, made) ↦
          rw (queries_from, made) (rw (query_hit r p q pooled made, any_hit r ps pooled) refl)
    ]

    apart :
        (p : Text × Text) (q : NeighborQuery) (ps : List (Text × Text))
        → new_neighbor_query s p.1 p.0 ≡ some q
        → All (λ p'. same_pair p p' ≡ false) ps
        → All (λ q'. same_query q q' ≡ false) (queries_from s ps)
    unfolding queries_from
    apart p q [] made differ = tt
    apart p q (p' ∷ ps) made differ = elim (Option-cases (new_neighbor_query s p'.1 p'.0)) [
      | inl missing ↦ rw (All, queries_from, missing) (apart p q ps made differ.1)
      | inr (q', made') ↦
          rw (All, queries_from, made')
            (same_query_lem p p' q q' made made' ∙ differ.0, apart p q ps made differ.1)
    ]

    queries-Different : (ps : List (Text × Text)) → Distinct ps → Different (queries_from s ps)
    unfolding queries_from
    queries-Different [] d = tt
    queries-Different (p ∷ ps) d = elim (Option-cases (new_neighbor_query s p.1 p.0)) [
      | inl missing ↦ rw (Different, queries_from, missing) (queries-Different ps d.1)
      | inr (q, made) ↦
          rw (Different, queries_from, made) (apart p q ps made d.0, queries-Different ps d.1)
    ]

    keep-sought :
        (g : Groups) (ps : List (Text × Text)) (rs : List LookupRoute)
        → All (IsPooledIn s.neighbor_ids s.server_ids) rs
        → keep (sought g (queries_from s ps)) rs
          ≡ keep (λ r. any (is_of r) ps && verdict g (lookup_filterable r)) rs
    unfolding keep
    keep-sought g ps [] pooled = refl
    keep-sought g ps (r ∷ rs) pooled = rw (any_hit r ps pooled.0, keep-sought g ps rs pooled.1) refl

-- In a store whose routes have pooled ids, and with filters in the six groups, the routes for the
-- neighbors of a search (each listed once) are exactly those whose source and neighbor, by the
-- texts of their ids, are listed, and that match the filters, in the order of the iteration: the
-- comparison of pointers finds neither more nor fewer, and a neighbor that no pool knows has no
-- routes.
pub lookup_prefix_for_neighbors_exact :
    (s : RoutesStore) (results : Assoc Text (List Neighbor)) (g : Groups)
    → IsPooled s
    → Distinct (pairs_of results)
    → lookup_prefix_for_neighbors s results (listed g)
      ≡ some (
          keep
            (λ r. any (is_of r) (pairs_of results) && verdict g (lookup_filterable r))
            (all_routes s.backend))
unfolding lookup_prefix_for_neighbors
lookup_prefix_for_neighbors_exact s results g h d =
    rw
      (
        queries_of_lem s results,
        find_by_neighbors_exact g (queries_from s (pairs_of results))
            (queries-Different s h (pairs_of results) d) s.backend,
        keep-sought s h g (pairs_of results) (all_routes s.backend) h.stored,
      )
      refl
