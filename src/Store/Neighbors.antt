-- ===== src/Store/Neighbors.antt =====
-- pkg/store/neighbors_store.go over the in-memory backend. What the instance of a source answers
-- is an argument of the calls that ask it, as is the clock at each reading.
pub mod Refresh
pub mod Search
use alice_lg.Common.{
  ℕ, ◌+◌, Bool, true, false, ◌&&◌, ◌||◌, not, Option, none, some, List, [], ◌∷◌, ◌++◌, length, keep,
  map, nat_beq, leb, if◌then◌else◌, nat_eq, list_eq,
}
use alice_lg.Common.Assoc.{Assoc, put}
use alice_lg.Common.Ints.{ℤ, pos, negsuc, int_beq, leb_ℤ}
use alice_lg.Common.Texts.{Text, to_lower, contains, atoi}
use alice_lg.Api.Neighbor.{Neighbor, NeighborFilter, match_neighbor}
use alice_lg.Store.Sources.{
  Sources, SourceConfig, Status, Error, is_initialized, get_status, should_refresh, lock_source,
  refresh_success, refresh_error,
}
use alice_lg.Store.Memory.Neighbors.{
  NeighborsBackend, NeighborIndex, set_neighbors, get_neighbors_at, get_neighbors_map_at,
  count_neighbors_at,
}

-- NeighborsStore
pub record NeighborsStore : Type 0 where
  pub backend : NeighborsBackend
  pub sources : Sources
  pub force_neighbor_refresh : Bool

-- What `Source.Neighbors` does: it returns neighbors, or an error, or it panics.
pub data Reply : Type 0 where
  neighbors : List Neighbor → Reply
  fails panics : Text → Reply

-- updateSource, for a source that returns neighbors
unfoldable pub store_neighbors :
    NeighborsStore → Text → List Neighbor → ℤ → ℤ → NeighborsStore × Option Error
unfolding set_neighbors refresh_success
store_neighbors s id ns now later =
    let (sources, err) = refresh_success s.sources id now later in
    (record s { backend = set_neighbors s.backend id ns; sources = sources }, err)

-- RefreshError, as the store calls it
unfoldable pub report : NeighborsStore → Text → Text → ℤ → ℤ → NeighborsStore
unfolding refresh_error
report s id source_error now later = record s {
  sources = refresh_error s.sources id source_error now later;
}

-- What `safeUpdateSource` does once it has the lock: a panic and an error are both recorded.
unfoldable pub finish_update :
    (Error → Text) → NeighborsStore → Text → Reply → ℤ → ℤ → NeighborsStore
unfolding store_neighbors report
finish_update error_text s id (fails e) now later = report s id e now later
finish_update error_text s id (panics e) now later = report s id e now later
finish_update error_text s id (neighbors ns) now later =
    let (t, err) = store_neighbors s id ns now later in
    elim err [ none ↦ t | some e ↦ report t id (error_text e) now later ]

-- safeUpdateSource, with the text of an error: the clock is read by ShouldRefresh, by LockSource, and twice at the end.
unfoldable pub safe_update_source :
    (Error → Text) → NeighborsStore → Text → Reply → ℤ → ℤ → ℤ → ℤ → NeighborsStore
unfolding should_refresh lock_source finish_update
safe_update_source error_text s id reply checked_at locked_at now later =
    if should_refresh s.sources id checked_at
    then (let (sources, err) = lock_source s.sources id locked_at in
        elim err [
          | some e ↦ s
          | none ↦ finish_update error_text (record s { sources = sources }) id reply now later
        ])
    else s

-- IsInitialized: an unknown source is not initialized.
unfoldable pub is_ready : NeighborsStore → Text → Bool
unfolding is_initialized
is_ready s id = elim (is_initialized s.sources id) [ none ↦ false | some ready ↦ ready ]

-- The results of a read: the value, or an error
pub data Read (A : Type 0) : Type 0 where
  value : A → Read A
  source_not_initialized not_found : Read A
  failed panicked : Text → Read A

abbrev pub or_not_found : {A : Type 0} → Option A → Read A
or_not_found none = not_found
or_not_found (some a) = value a

-- GetNeighborsMapAt
unfoldable pub neighbors_map_at : NeighborsStore → Text → Read NeighborIndex
unfolding is_ready get_neighbors_map_at
neighbors_map_at s id =
    if is_ready s id
    then or_not_found (get_neighbors_map_at s.backend id)
    else source_not_initialized

-- The read of GetNeighborsAt after a forced refresh, whose panic is not recovered
unfoldable pub refresh_and_read :
    (Error → Text) → NeighborsStore → Text → Reply → ℤ → ℤ → NeighborsStore × Read (List Neighbor)
unfolding store_neighbors get_neighbors_at
refresh_and_read error_text s id (fails e) now later = (s, failed e)
refresh_and_read error_text s id (panics e) now later = (s, panicked e)
refresh_and_read error_text s id (neighbors ns) now later =
    let (t, err) = store_neighbors s id ns now later in
    elim err [
      | none ↦ (t, or_not_found (get_neighbors_at t.backend id))
      | some e ↦ (t, failed (error_text e))
    ]

-- GetNeighborsAt; the reply of the source is used only where a refresh is forced.
unfoldable pub neighbors_at :
    (Error → Text) → NeighborsStore → Text → Reply → ℤ → ℤ → NeighborsStore × Read (List Neighbor)
unfolding is_ready get_neighbors_at refresh_and_read
neighbors_at error_text s id reply now later =
    if not (is_ready s id)
    then (s, source_not_initialized)
    else if s.force_neighbor_refresh
    then refresh_and_read error_text s id reply now later
    else (s, or_not_found (get_neighbors_at s.backend id))

-- ReMatchASLookup, `(?i)^AS(\d+)`: its first group (case folding makes U+017F an S)
unfoldable pub leading_digits : Text → Text
leading_digits [] = []
leading_digits (c ∷ s) =
    let rest = leading_digits s in if leb 48 c && leb c 57 then c ∷ rest else []

unfoldable pub match_as_lookup : Text → Option Text
unfolding leading_digits
match_as_lookup (a ∷ s ∷ query) =
    if (nat_beq a b'A' || nat_beq a b'a') && (nat_beq s b'S' || nat_beq s b's' || nat_beq s 0x17F)
    then elim (leading_digits query) [ [] ↦ none | c ∷ digits ↦ some (c ∷ digits) ]
    else none
match_as_lookup _ = none

-- The AS number of a query, -1 if it has none or one out of range
unfoldable pub asn_of_query : Text → ℤ
unfolding match_as_lookup
asn_of_query query = elim (match_as_lookup query) [
  | none ↦ negsuc 0
  | some digits ↦ let (a, ok) = atoi digits in if ok then a else negsuc 0
]

-- ContainsCi
unfoldable pub contains_ci : Text → Text → Bool
contains_ci s substr = contains (to_lower s) (to_lower substr)

-- The test in the loop of lookupNeighborsAt
unfoldable pub is_hit : Text → Neighbor → Bool
unfolding asn_of_query contains_ci
is_hit query n =
    leb_ℤ (pos 0) (asn_of_query query) && int_beq n.asn (asn_of_query query)
    || contains_ci n.description query

-- lookupNeighborsAt
unfoldable pub lookup_neighbors_at : NeighborsStore → Text → Text → Option (List Neighbor)
unfolding get_neighbors_at is_hit
lookup_neighbors_at s source_id query = elim (get_neighbors_at s.backend source_id) [
  | none ↦ none
  | some ns ↦ some (keep (is_hit query) ns)
]

-- GetSourceIDs
abbrev pub get_source_ids : Sources → List Text
get_source_ids s = map (λ (e : Text × SourceConfig). e.0) s.sources

-- The loop of LookupNeighbors: a source that the backend does not know is skipped.
unfoldable pub lookup_over :
    NeighborsStore → Text → List Text → Assoc Text (List Neighbor) → Assoc Text (List Neighbor)
unfolding lookup_neighbors_at put
lookup_over s query [] results = results
lookup_over s query (id ∷ ids) results =
    lookup_over s query ids
      (elim (lookup_neighbors_at s id query) [ none ↦ results | some ns ↦ put id ns results ])

-- LookupNeighbors
unfoldable pub lookup_neighbors : NeighborsStore → Text → Assoc Text (List Neighbor)
unfolding lookup_over
lookup_neighbors s query = lookup_over s query (get_source_ids s.sources) []

-- The loop of FilterNeighbors
unfoldable pub filter_over : NeighborsStore → NeighborFilter → List Text → List Neighbor
unfolding get_neighbors_at match_neighbor
filter_over s filter [] = []
filter_over s filter (id ∷ ids) = elim (get_neighbors_at s.backend id) [
  | none ↦ filter_over s filter ids
  | some ns ↦ keep (match_neighbor filter) ns ++ filter_over s filter ids
]

-- FilterNeighbors
unfoldable pub filter_neighbors : NeighborsStore → NeighborFilter → List Neighbor
unfolding filter_over
filter_neighbors s filter = filter_over s filter (get_source_ids s.sources)

-- The number of neighbors in Stats: a source that the backend does not know counts as none.
unfoldable pub total_neighbors : NeighborsStore → List Text → ℕ
unfolding count_neighbors_at
total_neighbors s [] = 0
total_neighbors s (id ∷ ids) =
    elim (count_neighbors_at s.backend id) [ none ↦ 0 | some n ↦ n ] + total_neighbors s ids
