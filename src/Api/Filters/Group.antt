-- ===== src/Api/Filters/Group.antt =====
-- pkg/api/search_filters.go: `SearchFilterGroup`. A group holds its filters by value where the
-- source holds pointers; the position of a filter stands for the pointer that
-- `GetFilterByValue` returns. A cardinality counts objects in memory and is kept a plain number.
use Prim.Native.String.{String}
use alice_lg.Common.{
  ℕ, suc, ◌+◌, Bool, true, false, Option, none, some, List, [], ◌∷◌, ◌++◌, length, get_elem?,
  nat_eq, list_eq, if◌then◌else◌, ◌>>=◌,
}
use alice_lg.Common.Assoc.{Assoc, get, put}
use alice_lg.Common.Texts.{Text}
use alice_lg.Api.Filters.Value.{Filter, FilterValue, value_string, equal}

-- SearchFilterGroup
pub record Group : Type 0 where
  pub key : String
  pub filters : List Filter
  pub index : Assoc Text ℕ

-- The loop of `FindFilter`
unfoldable pub find_in : List Filter → Filter → Option (Option Filter)
unfolding equal
find_in [] filter = some none
find_in (f ∷ fs) filter =
    let rest = find_in fs filter in do same ← equal f filter; if same then some (some f) else rest

-- SearchFilterGroup.FindFilter
unfoldable pub find_filter : Group → Filter → Option (Option Filter)
unfolding find_in
find_filter g filter = find_in g.filters filter

-- SearchFilterGroup.Contains
unfoldable pub contains : Group → Filter → Option Bool
unfolding find_filter
contains g filter = do
  found ← find_filter g filter
  some (elim found [ none ↦ false | some _ ↦ true ])

-- `g.Filters[idx]` of the position that the index gives
abbrev checked_position : List Filter → ℕ → Option (Option ℕ)
checked_position filters i = elim (get_elem? filters i) [ none ↦ none | some _ ↦ some (some i) ]

-- SearchFilterGroup.GetFilterByValue
unfoldable pub get_filter_by_value : Group → FilterValue → Option (Option ℕ)
unfolding value_string get
get_filter_by_value g value = do
  ref ← value_string value
  elim (get ref g.index) [ none ↦ some none | some i ↦ checked_position g.filters i ]

-- presentFilter.Cardinality++
abbrev pub increment_at : List Filter → ℕ → List Filter
increment_at [] i = []
increment_at (f ∷ fs) ℕ.zero = record f { cardinality = f.cardinality + 1 } ∷ fs
increment_at (f ∷ fs) (suc i) = f ∷ increment_at fs i

-- SearchFilterGroup.AddFilter
unfoldable pub add_filter : Group → Filter → Option Group
unfolding get_filter_by_value value_string put
add_filter g filter = do
  present ← get_filter_by_value g filter.value
  ref ← value_string filter.value
  some (elim present [
    | some i ↦ record g { filters = increment_at g.filters i }
    | none ↦ record g {
      filters = g.filters ++ record filter { cardinality = 1 } ∷ [];
      index = put ref (length g.filters) g.index;
    }
  ])

-- SearchFilterGroup.AddFilters
unfoldable pub add_filters : Group → List Filter → Option Group
add_filters g [] = some g
add_filters g (f ∷ fs) = do g' ← add_filter g f; add_filters g' fs

-- The loop of `rebuildIndex`, from position `i` on.
unfoldable pub index_from : ℕ → List Filter → Assoc Text ℕ → Option (Assoc Text ℕ)
unfolding value_string put
index_from i [] idx = some idx
index_from i (f ∷ fs) idx = do ref ← value_string f.value; index_from (i + 1) fs (put ref i idx)

-- SearchFilterGroup.rebuildIndex
unfoldable pub rebuild_index : Group → Option Group
unfolding index_from
rebuild_index g = do idx ← index_from 0 g.filters []; some (record g { index = idx })
