-- ===== src/Store/Neighbors/Search.antt =====
-- The searches for neighbors over all sources.
use alice_lg.Common.{
  ◌&&◌, ◌||◌, ◌≡◌, refl, ap, ◌∙◌, Bool, Option, some, none, List, [], ◌∷◌, ◌++◌, list_beq,
  list_beq_iff, nat_eq, list_eq, if◌then◌else◌, arith, any, keep, keep-append, Option-cases, inl,
  inr,
}
use alice_lg.Common.Assoc.{Assoc, get, put, get-put}
use alice_lg.Common.Ints.{pos, int_beq, leb_ℤ}
use alice_lg.Common.Texts.{Text, contains, to_lower}
use alice_lg.Api.Neighbor.{Neighbor, NeighborFilter, match_neighbor}
use alice_lg.Store.Memory.Neighbors.{get_neighbors_at}
use alice_lg.Store.Neighbors.{
  NeighborsStore, get_source_ids, lookup_neighbors_at, asn_of_query, is_hit, contains_ci,
  lookup_over, lookup_neighbors, filter_over, filter_neighbors,
}

-- All neighbors of some sources that the backend knows
unfoldable pub gathered : NeighborsStore → List Text → List Neighbor
unfolding get_neighbors_at
gathered s [] = []
gathered s (id ∷ ids) =
    elim (get_neighbors_at s.backend id) [ none ↦ [] | some ns ↦ ns ] ++ gathered s ids

filter_over_lem :
    (s : NeighborsStore) (filter : NeighborFilter) (ids : List Text)
    → filter_over s filter ids ≡ keep (match_neighbor filter) (gathered s ids)
unfolding filter_over gathered keep
filter_over_lem s filter [] = refl
filter_over_lem s filter (id ∷ ids) = elim (Option-cases (get_neighbors_at s.backend id)) [
  | inl missing ↦ rw (filter_over, missing) (filter_over_lem s filter ids)
  | inr (ns, known) ↦
      rw
        (
          filter_over,
          known,
          filter_over_lem s filter ids,
          keep-append (match_neighbor filter) ns (gathered s ids),
        )
        refl
]

-- The filter finds exactly the matching ones among the neighbors of all sources that the backend
-- knows, in the order of the sources.
pub filter_neighbors_exact :
    (s : NeighborsStore) (filter : NeighborFilter)
    → filter_neighbors s filter
      ≡ keep (match_neighbor filter) (gathered s (get_source_ids s.sources))
unfolding filter_neighbors
filter_neighbors_exact s filter = filter_over_lem s filter (get_source_ids s.sources)

abbrev either_of : Option (List Neighbor) → Option (List Neighbor) → Option (List Neighbor)
either_of none o = o
either_of (some ns) o = some ns

abbrev among : Text → List Text → Bool
among id ids = any (λ other. list_beq other id) ids

lookup_over_lem :
    (s : NeighborsStore) (query id : Text) (ids : List Text) (r : Assoc Text (List Neighbor))
    → get id (lookup_over s query ids r)
      ≡ (if among id ids then either_of (lookup_neighbors_at s id query) (get id r) else get id r)
unfolding lookup_over any
lookup_over_lem s query id [] r = refl
lookup_over_lem s query id (i ∷ ids) r = elim (Option-cases (lookup_neighbors_at s i query)) [
  | inl missing ↦
      rw missing (lookup_over_lem s query id ids r ∙ ground (arith, missing, list_beq_iff i id))
  | inr (ns, known) ↦ rw known (
      lookup_over_lem s query id ids (put i ns r)
      ∙ ground (arith, known, get-put i id ns r, list_beq_iff i id))
]

either_of-none : (o : Option (List Neighbor)) → either_of o none ≡ o
either_of-none none = refl
either_of-none (some ns) = refl

-- A neighbor matches a query by the AS number in it, or by a part of its description, case aside.
abbrev pub matches_query : Text → Neighbor → Bool
matches_query query n =
    leb_ℤ (pos 0) (asn_of_query query) && int_beq n.asn (asn_of_query query)
    || contains (to_lower n.description) (to_lower query)

-- The neighbors that match a query, of those that the backend may know
abbrev pub matching : Text → Option (List Neighbor) → Option (List Neighbor)
matching query none = none
matching query (some ns) = some (keep (matches_query query) ns)

lookup_neighbors_at_lem :
    (s : NeighborsStore) (id query : Text)
    → lookup_neighbors_at s id query ≡ matching query (get_neighbors_at s.backend id)
unfolding lookup_neighbors_at is_hit contains_ci
lookup_neighbors_at_lem s id query = elim (Option-cases (get_neighbors_at s.backend id)) [
  | inl missing ↦ rw (lookup_neighbors_at, missing) refl
  | inr (ns, known) ↦ rw (lookup_neighbors_at, known) refl
]

-- The lookup has an entry for exactly the sources that are registered and that the backend knows:
-- those neighbors of the source, in their order, that have the AS number of the query, if it has
-- one, or whose description contains the query, case aside.
pub lookup_neighbors_exact :
    (s : NeighborsStore) (query id : Text)
    → get id (lookup_neighbors s query) ≡ (
        if any (λ other. list_beq other id) (get_source_ids s.sources)
        then matching query (get_neighbors_at s.backend id)
        else none)
unfolding lookup_neighbors
lookup_neighbors_exact s query id =
    lookup_over_lem s query id (get_source_ids s.sources) []
    ∙ ap (λ o. if among id (get_source_ids s.sources) then o else none)
        (either_of-none (lookup_neighbors_at s id query) ∙ lookup_neighbors_at_lem s id query)
