-- ===== src/Api/Filters/Combine.antt =====
-- pkg/api/search_filters.go: the loops of `Combine`, `Sub` and `MergeProperties` over one group.
-- The results hold the filters by value. (The source shares the filter pointers of the arguments;
-- its callers drop the arguments.)
use alice_lg.Common.{
  Bool, true, false, Option, none, some, List, [], ◌∷◌, ◌++◌, if◌then◌else◌, ◌>>=◌,
}
use alice_lg.Api.Filters.Value.{Filter}
use alice_lg.Api.Filters.Group.{Group, find_in, find_filter, contains, rebuild_index}

abbrev pub is_found : Option Filter → Bool
is_found none = false
is_found (some f) = true

-- The loop of `Combine` over the other group's filters: `own` is `combined.Filters`.
unfoldable pub add_missing : List Filter → List Filter → Option (List Filter)
unfolding find_in
add_missing own [] = some own
add_missing own (f ∷ fs) = do
  found ← find_in own f
  add_missing (if is_found found then own else own ++ f ∷ []) fs

-- One round of `Combine`
unfoldable pub combine_group : Group → Group → Option Group
unfolding add_missing rebuild_index
combine_group group other = do
  filters ← add_missing group.filters other.filters
  rebuild_index (record { key = group.key; filters = filters; index = [] })

-- The loop of `Sub` over the filters of one group
unfoldable pub drop_present : Group → List Filter → Option (List Filter)
unfolding contains
drop_present other [] = some []
drop_present other (f ∷ fs) = do
  present ← contains other f
  rest ← drop_present other fs
  some (if present then rest else f ∷ rest)

-- One round of `Sub`
unfoldable pub sub_group : Group → Group → Option Group
unfolding drop_present rebuild_index
sub_group group other = do
  filters ← drop_present other group.filters
  rebuild_index (record { key = group.key; filters = filters; index = [] })

abbrev pub merged : Filter → Option Filter → Filter
merged filter none = filter
merged filter (some other) = record filter { name = other.name; cardinality = other.cardinality }

-- The loop of `MergeProperties` over the filters of one group
unfoldable pub merge_filters : Group → List Filter → Option (List Filter)
unfolding find_filter
merge_filters other [] = some []
merge_filters other (filter ∷ fs) = do
  found ← find_filter other filter
  rest ← merge_filters other fs
  some (merged filter found ∷ rest)

-- One round of `MergeProperties`
unfoldable pub merge_group : Group → Group → Option Group
unfolding merge_filters
merge_group group other = do
  filters ← merge_filters other group.filters
  some (record group { filters = filters })
