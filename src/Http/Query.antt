-- ===== src/Http/Query.antt =====
-- pkg/http/api_query.go and pkg/http/api_validators.go. The query of a request is a map from the
-- parameters to their values, which `net/url` makes; a parameter that is there has a value.
pub mod Tokens
use Prim.Native.String.{String}
use alice_lg.Common.{
  ℕ, Bool, true, false, ◌&&◌, ◌||◌, not, Option, none, some, List, [], ◌∷◌, length, keep, ltb,
  nat_beq, if◌then◌else◌, string_eq,
}
use alice_lg.Common.Assoc.{Assoc, get}
use alice_lg.Common.Ints.{ℤ}
use alice_lg.Common.Texts.{
  Text, codes, byte_length, to_lower, has_prefix, contains, split, join, atoi,
}
use alice_lg.Api.Route.{Route}

-- url.Values
abbrev pub Values : Type 0
Values = Assoc String (List Text)

-- The value at index 0; `none` is the panic on an empty list, which no parsed query has.
abbrev pub first : List Text → Option Text
first [] = none
first (v ∷ _) = some v

-- apiQueryMustInt; `none` is a panic.
unfoldable pub query_must_int : Values → String → ℤ → Option ℤ
unfolding get
query_must_int query param default_value = elim (get param query) [
  | none ↦ some default_value
  | some values ↦ elim (first values) [
    | none ↦ none
    | some v ↦ let (n, ok) = atoi v in if ok then some n else some default_value
  ]
]

-- The test of the loop in apiQueryFilterNextHopGateway
unfoldable pub has_next_hop : Text → Route → Bool
has_next_hop query r =
    has_prefix (to_lower r.network) query || has_prefix (to_lower r.gateway) query

-- apiQueryFilterNextHopGateway; `none` is a panic.
unfoldable pub filter_next_hop_gateway : Values → String → List Route → Option (List Route)
unfolding get has_next_hop
filter_next_hop_gateway query param routes = elim (get param query) [
  | none ↦ some routes
  | some values ↦ elim (first values) [
    | none ↦ none
    | some v ↦ some (keep (has_next_hop (to_lower v)) routes)
  ]
]

abbrev pub is_filter : Text → Bool
is_filter token = has_prefix token (codes "#")

-- The loop of ExtractFilters
unfoldable pub separate : List Text → List Text × List Text
separate [] = ([], [])
separate (t ∷ tokens) =
    let (query, filters) = separate tokens in
    if is_filter t then (query, t ∷ filters) else (t ∷ query, filters)

-- ExtractFilters
unfoldable pub extract_filters : Text → Text × List Text
unfolding separate
extract_filters q = let (query, filters) = separate (split b' ' q) in (join b' ' query, filters)

-- ErrValidationFailed: the parameter, and the reason
pub data Reason : Type 0 where
  missing ambiguous empty query_too_short query_incomplete : Reason
  source_id_too_long : ℕ → Reason

pub record ValidationFailed : Type 0 where
  pub param : String
  pub reason : Reason

-- A value, or an error
pub data Checked : Type 0 where
  valid : Text → Checked
  invalid : ValidationFailed → Checked

abbrev pub invalid_param : String → Reason → Checked
invalid_param param reason = invalid (record { param = param; reason = reason })

-- validateSourceID
unfoldable pub validate_source_id : Text → Checked
validate_source_id id =
    if ltb 42 (byte_length id)
    then invalid_param "" (source_id_too_long (byte_length id))
    else valid id

-- validateQueryString
unfoldable pub validate_query_string : Values → String → Checked
unfolding get
validate_query_string query key = elim (get key query) [
  | none ↦ invalid_param key missing
  | some values ↦ elim values [
    | (c ∷ v) ∷ [] ↦ valid (c ∷ v)
    | [] ∷ [] ↦ invalid_param key empty
    | _ ↦ invalid_param key ambiguous
  ]
]

-- validatePrefixQuery
unfoldable pub validate_prefix_query : Text → Checked
validate_prefix_query value =
    if ltb (byte_length value) 2
    then invalid_param "q" query_too_short
    else if not (contains value (codes ":")) && not (contains value (codes "."))
    then invalid_param "q" query_incomplete
    else valid value

-- validateNeighborsQuery
unfoldable pub validate_neighbors_query : Text → Checked
validate_neighbors_query value =
    if ltb (byte_length value) 4 then invalid_param "q" query_too_short else valid value
