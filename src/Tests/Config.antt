-- ===== src/Tests/Config.antt =====
-- The configuration of pkg/config at concrete inputs.
use alice_lg.Common.{map, ◌≡◌, refl, List, [], ◌∷◌, none, some, arith}
use alice_lg.Common.Assoc.{get, put}
use alice_lg.Common.Texts.{atoi, split, parse_uint, parse_digits, Text, codes, has_prefix}
use alice_lg.Config.Expand.Variables.{cut}
use alice_lg.Config.Communities.{
  texts, ints, std, get_type, parse_range_community, ranges_of, range_of, range_community,
  int_range, int_list_from_strings,
}
use alice_lg.Config.Communities.Ranges.{ranges_text, range_part, parse-ranges_text}
use alice_lg.Common.Ints.{pos}
use alice_lg.Config.Expand.{
  ExpandMap, expanded, expand, expand_found, expand_all, apply_substitutions, substitute_all,
  replace_from, find_placeholders, with_inner, find_all, placeholder_at, wildcard_at, body,
  wildcard_body, closing, get_key, trim_suffix, trim_prefix, get_level, collect, get_substitutions,
  is_wildcard, match_wildcard, match_prefix, preprocess, replace_shorthands,
}
use alice_lg.Config.Expand.Placeholders.{find_placeholders_total}
use alice_lg.Config.Expand.Divergence.{expand_diverges}

abbrev variables : ExpandMap
variables =
    (codes "AS1", codes "64512") ∷ (codes "AS2", codes "64513") ∷ (codes "N64512", codes "x") ∷ []

-- A shorthand for the values of all variables with a prefix
expand_shorthand :
    expand 4 variables (codes "{{AS*}}:{AS1}")
    ≡ some (expanded (codes "64512:64512" ∷ codes "64513:64512" ∷ []))
unfolding expand expand_found expand_all apply_substitutions substitute_all replace_from
    find_placeholders with_inner find_all placeholder_at wildcard_at body wildcard_body closing
    get_key trim_suffix trim_prefix get_level collect get_substitutions is_wildcard match_wildcard
    match_prefix preprocess replace_shorthands has_prefix get put
expand_shorthand = refl

abbrev unclosed : Text
unclosed = codes "{A{B}"

find_placeholders_total_example : (r : List Text) × (find_placeholders 6 (codes "{A{B}") ≡ some r)
find_placeholders_total_example = find_placeholders_total 6 (codes "{A{B}") (omega arith)

expand_diverges_example : expand 100 variables unclosed ≡ none
unfolding find_placeholders with_inner find_all placeholder_at wildcard_at body wildcard_body
    closing get_key trim_suffix trim_prefix get_level collect get_substitutions is_wildcard
    match_wildcard match_prefix preprocess replace_shorthands has_prefix get
expand_diverges_example = expand_diverges variables unclosed unclosed [] refl refl refl 100

parse-ranges_text_example :
    (parse_range_community (ranges_text ((65535, 65535) ∷ (1, 200) ∷ []))
      ≡ some (map range_part ((65535, 65535) ∷ (1, 200) ∷ [])))
    × (get_type (map range_part ((65535, 65535) ∷ (1, 200) ∷ [])) ≡ some std)
parse-ranges_text_example =
    parse-ranges_text (65535, 65535) (1, 200) []
      ((omega arith, omega arith), ((omega arith, omega arith), tt))

-- An extended community keeps its name as a text.
extended_range :
    parse_range_community (codes "ro:1-2:3")
    ≡ some (
        texts (codes "ro" ∷ codes "ro" ∷ [])
        ∷ ints (pos 1 ∷ pos 2 ∷ [])
        ∷ ints (pos 3 ∷ pos 3 ∷ [])
        ∷ [])
unfolding parse_range_community ranges_of range_of cut range_community int_range
    int_list_from_strings atoi split parse_uint parse_digits
extended_range = refl
