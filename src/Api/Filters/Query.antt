-- ===== src/Api/Filters/Query.antt =====
-- pkg/api/search_filters_parsers.go, and the functions of pkg/api/search_filters.go that make
-- filters from a query: the text of each filter, errors included.
pub mod RoundTrip
use Prim.Native.String.{String}
use alice_lg.Common.{
  ℕ, zero, suc, Bool, true, false, ◌&&◌, ◌||◌, Option, none, some, List, [], ◌∷◌, length, map,
  if◌then◌else◌, list_beq, nat_eq, ltb, nat_beq, string_eq, ◌==◌,
}
use alice_lg.Common.Assoc.{Assoc}
use alice_lg.Common.Ints.{ℤ, pos}
use alice_lg.Common.Texts.{Text, codes, split, trim_space, atoi}
use alice_lg.Api.Community.{Community, ExtCommunity, Part, text, num, community_string, ext_string}
use alice_lg.Api.Filters.Value.{FilterValue, int, string, community, ext_community, Filter}
use alice_lg.Api.Filters.Group.{Group, add_filter, add_filters}
use alice_lg.Api.Filters.Match.{
  search_key_sources, search_key_asns, search_key_communities, search_key_ext_communities,
  search_key_large_communities, search_key_addr_family,
}
use alice_lg.Api.Filters.Collection.{SearchFilters, new_search_filters, update_group, filter_of}

-- The errors: that of `strconv.Atoi` for a text, ErrExtCommunityIncomplete, and the error that
-- says "BGP community incomplete"
pub data QueryError : Type 0 where
  not_an_int : Text → QueryError
  ext_community_incomplete community_incomplete : QueryError

-- What a parser gives: a result, an error, or a panic.
pub data Outcome (A : Type 0) : Type 0 where
  parsed : A → Outcome A
  refused : QueryError → Outcome A
  panicked : Outcome A

infixl 5 ◌>>=◌
abbrev pub ◌>>=◌ : {A B : Type 0} → Outcome A → (A → Outcome B) → Outcome B
parsed a >>= f = f a
refused e >>= f = refused e
panicked >>= f = panicked

abbrev pub unless_panic : {A : Type 0} → Option A → Outcome A
unless_panic none = panicked
unless_panic (some a) = parsed a

-- parseQueryValueList, the loop over the components
unfoldable pub parse_components : (Text → Outcome Filter) → List Text → Outcome (List Filter)
parse_components parser [] = parsed []
parse_components parser (component ∷ components) = do
  filter ← parser (trim_space component)
  filters ← parse_components parser components
  parsed (filter ∷ filters)

-- parseQueryValueList
unfoldable pub parse_query_value_list : (Text → Outcome Filter) → Text → Outcome (List Filter)
unfolding parse_components
parse_query_value_list parser value = parse_components parser (split b',' value)

-- strconv.Atoi with its error
unfoldable pub parse_int : Text → Outcome ℤ
parse_int s = let (v, ok) = atoi s in if ok then parsed v else refused (not_an_int s)

-- parseIntValue
unfoldable pub parse_int_value : Text → Outcome Filter
unfolding parse_int
parse_int_value value = do v ← parse_int value; parsed (filter_of [] (int v))

-- parseStringValue
unfoldable pub parse_string_value : Text → Outcome Filter
parse_string_value value = parsed (filter_of [] (string value))

-- The loop of parseCommunityValue
unfoldable pub parse_parts : List Text → Outcome Community
unfolding parse_int
parse_parts [] = parsed []
parse_parts (c ∷ components) = do v ← parse_int c; rest ← parse_parts components; parsed (v ∷ rest)

-- parseCommunityValue
unfoldable pub parse_community_value : Text → Outcome Filter
unfolding parse_parts
parse_community_value value = do
  c ← parse_parts (split b':' value)
  parsed (filter_of (community_string c) (community c))

abbrev pub is_empty : Text → Bool
is_empty [] = true
is_empty (_ ∷ _) = false

-- The components of an extended community: the errors of `strconv.Atoi` are dropped.
unfoldable pub ext_of_parts : Text → Text → Text → ExtCommunity
ext_of_parts a b c = text a ∷ num (atoi b).0 ∷ num (atoi c).0 ∷ []

-- parseExtCommunityValue
unfoldable pub parse_ext_community_value : Text → Outcome Filter
unfolding ext_of_parts
parse_ext_community_value value = elim (split b':' value) [
  | a ∷ b ∷ c ∷ [] ↦
      if is_empty a || is_empty b || is_empty c
      then refused ext_community_incomplete
      else unless_panic (ext_string (ext_of_parts a b c))
        >>= (λ name. parsed (filter_of name (ext_community (ext_of_parts a b c))))
  | _ ↦ refused ext_community_incomplete
]

-- The cases of the switch in FiltersFromQuery; the other keys are skipped.
unfoldable pub parser_by_key : String → Option (Text → Outcome Filter)
unfolding parse_string_value parse_int_value parse_community_value parse_ext_community_value
parser_by_key key =
    if key == search_key_sources
    then some parse_string_value
    else if key == search_key_asns
    then some parse_int_value
    else if key == search_key_communities
    then some parse_community_value
    else if key == search_key_ext_communities
    then some parse_ext_community_value
    else if key == search_key_large_communities
    then some parse_community_value
    else if key == search_key_addr_family
    then some parse_int_value
    else none

-- query.Get(key), of the values of a key
abbrev pub first_value : List Text → Text
first_value [] = []
first_value (v ∷ _) = v

-- The loop of FiltersFromQuery
unfoldable pub update_from_query : Assoc String (List Text) → SearchFilters → Outcome SearchFilters
unfolding parser_by_key parse_query_value_list
update_from_query [] s = parsed s
update_from_query ((key, values) ∷ query) s = elim (parser_by_key key) [
  | none ↦ update_from_query query s
  | some parser ↦ do
    filters ← parse_query_value_list parser (first_value values)
    t ← unless_panic (update_group s key (λ g. add_filters g filters))
    update_from_query query t
]

-- FiltersFromQuery
unfoldable pub filters_from_query : Assoc String (List Text) → Outcome SearchFilters
unfolding update_from_query
filters_from_query query = update_from_query query new_search_filters

-- The error of parseCommunityValue, which parseCommunityFilterText replaces
abbrev pub community_error : {A : Type 0} → Outcome A → Outcome A
community_error (refused _) = refused community_incomplete
community_error (parsed a) = parsed a
community_error panicked = panicked

-- parseCommunityFilterText
unfoldable pub parse_community_filter_text : Text → Outcome (String × Filter)
unfolding parse_community_value parse_ext_community_value
parse_community_filter_text s = elim (split b':' s) [
  | a ∷ b ∷ tokens ↦
      if (atoi a).1
      then (community_error (parse_community_value s) >>= (λ filter. parsed (
        if nat_beq (length tokens) 0 then search_key_communities else search_key_large_communities,
        filter,
      )))
      else (parse_ext_community_value s >>= (λ filter. parsed (search_key_ext_communities, filter)))
  | _ ↦ refused community_incomplete
]

-- The loop of FiltersFromTokens: a token that starts with # is a community.
unfoldable pub update_from_tokens : List Text → SearchFilters → Outcome SearchFilters
unfolding parse_community_filter_text
update_from_tokens [] s = parsed s
update_from_tokens ([] ∷ tokens) s = update_from_tokens tokens s
update_from_tokens ((c ∷ value) ∷ tokens) s =
    if nat_beq c b'#'
    then (parse_community_filter_text value >>= (λ x.
        unless_panic (update_group s x.0 (λ g. add_filter g x.1))
        >>= (λ t. update_from_tokens tokens t)))
    else update_from_tokens tokens s

-- FiltersFromTokens
unfoldable pub filters_from_tokens : List Text → Outcome SearchFilters
unfolding update_from_tokens
filters_from_tokens tokens = update_from_tokens tokens new_search_filters
