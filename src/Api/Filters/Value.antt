-- ===== src/Api/Filters/Value.antt =====
-- pkg/api/search_filters.go: the dynamic values of filters, their text and their comparison. A
-- failed type assertion is a panic, `none`.
use alice_lg.Common.{
  ℕ, Bool, true, false, ◌&&◌, ◌||◌, not, Option, none, some, [], ◌∷◌, length, nat_beq, nat_eq,
  list_beq, if◌then◌else◌, ◌>>=◌,
}
use alice_lg.Common.Ints.{ℤ, pos, int_beq, int_eq}
use alice_lg.Common.Texts.{Text, itoa}
use alice_lg.Api.Community.{
  Community, ExtCommunity, part_eq, community_string, ext_string, three_equal,
}

-- A pointer to a string: its address, and the text that stands there. (Pooled strings are never
-- written again.)
pub record Pointer : Type 0 where
  pub address : ℕ
  pub target : Text

-- type FilterValue any, with the dynamic types that the program stores in it
pub data FilterValue : Type 0 where
  int : ℤ → FilterValue
  uint8 : ℕ → FilterValue
  string : Text → FilterValue
  pointer : Pointer → FilterValue
  community : Community → FilterValue
  ext_community : ExtCommunity → FilterValue

-- filterValueAsString
unfoldable pub value_string : FilterValue → Option Text
value_string (int v) = some (itoa v)
value_string (uint8 v) = some (itoa (pos v))
value_string (pointer p) = some p.target
value_string (string s) = some s
value_string (community c) = some (community_string c)
value_string (ext_community c) = ext_string c

-- searchFilterCmpInt
unfoldable pub cmp_int : FilterValue → FilterValue → Option Bool
cmp_int (int a) (int b) = some (int_beq a b)
cmp_int _ _ = none

-- The text of a string or of a pointer to one.
abbrev pub text_of : FilterValue → Option Text
text_of (pointer p) = some p.target
text_of (string s) = some s
text_of _ = none

-- searchFilterCmpString: two pointers are compared by their addresses.
unfoldable pub cmp_string : FilterValue → FilterValue → Option Bool
cmp_string (pointer p) (pointer q) = some (nat_beq p.address q.address)
cmp_string a b = do s ← text_of a; t ← text_of b; some (list_beq s t)

-- The loop of searchFilterCmpCommunity, after the comparison of the lengths.
unfoldable pub components_equal : Community → Community → Bool
components_equal [] d = true
components_equal (a ∷ c) [] = false
components_equal (a ∷ c) (b ∷ d) = int_beq a b && components_equal c d

-- searchFilterCmpCommunity
unfoldable pub cmp_community : FilterValue → FilterValue → Option Bool
unfolding components_equal
cmp_community (community c) (community d) =
    some (if nat_beq (length c) (length d) then components_equal c d else false)
cmp_community _ _ = none

-- searchFilterCmpExtCommunity
unfoldable pub cmp_ext_community : FilterValue → FilterValue → Option Bool
unfolding three_equal
cmp_ext_community (ext_community c) (ext_community d) = some (
    if not (nat_beq (length c) (length d))
      || not (nat_beq (length c) 3)
      || not (nat_beq (length d) 3)
    then false
    else three_equal c d)
cmp_ext_community _ _ = none

-- SearchFilter
pub record Filter : Type 0 where
  pub cardinality : ℕ
  pub name : Text
  pub value : FilterValue

-- The type switch of `SearchFilter.Equal` is on the other filter's value; without a comparison
-- function the answer is false.
unfoldable pub equal_values : FilterValue → FilterValue → Option Bool
unfolding cmp_int cmp_string cmp_community cmp_ext_community
equal_values a (community c) = cmp_community a (community c)
equal_values a (ext_community c) = cmp_ext_community a (ext_community c)
equal_values a (int v) = cmp_int a (int v)
equal_values a (string s) = cmp_string a (string s)
equal_values a (pointer p) = cmp_string a (pointer p)
equal_values a (uint8 v) = some false

-- SearchFilter.Equal
unfoldable pub equal : Filter → Filter → Option Bool
unfolding equal_values
equal f other = equal_values f.value other.value
