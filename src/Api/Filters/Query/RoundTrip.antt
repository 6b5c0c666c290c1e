-- ===== src/Api/Filters/Query/RoundTrip.antt =====
-- The text of a community, as a filter of a query.
use alice_lg.Common.{
  length, ◌≡◌, refl, ap, ◌∙◌, [], ◌∷◌, ◌++◌, map, if◌then◌else◌, nat_beq, append-nil, All,
  length-map,
}
use alice_lg.Common.Ints.{ℤ, IsInt}
use alice_lg.Common.Texts.{split, itoa}
use alice_lg.Common.Texts.Splitting.{split-Free, split-first}
use alice_lg.Common.Texts.Numbers.{atoi-itoa, itoa-All}
use alice_lg.Api.Community.{Community, later_parts, community_string}
use alice_lg.Api.Filters.Value.{community}
use alice_lg.Api.Filters.Collection.{filter_of}
use alice_lg.Api.Filters.Query.{
  parsed, parse_int, parse_parts, parse_community_value, parse_community_filter_text,
}
use alice_lg.Api.Filters.Match.{search_key_communities, search_key_large_communities}

split-community_string :
    (v : ℤ) (c : Community) → split b':' (community_string (v ∷ c)) ≡ itoa v ∷ map itoa c
unfolding community_string later_parts
split-community_string v [] =
    ap (split b':') (append-nil (itoa v)) ∙ split-Free b':' (itoa v) (itoa-All v)
split-community_string v (w ∷ c) =
    split-first b':' (itoa v) (itoa w ++ later_parts c) (itoa-All v)
    ∙ ap (λ parts. itoa v ∷ parts) (split-community_string w c)

parse_int-itoa : (z : ℤ) → IsInt z → parse_int (itoa z) ≡ parsed z
unfolding parse_int
parse_int-itoa z h = rw (atoi-itoa z h) refl

parse_parts-itoa : (c : Community) → All IsInt c → parse_parts (map itoa c) ≡ parsed c
unfolding parse_parts
parse_parts-itoa [] hs = refl
parse_parts-itoa (v ∷ c) hs = rw (parse_int-itoa v hs.0, parse_parts-itoa c hs.1) refl

-- The text of a community that is not empty, of ints, is parsed to a filter for the community.
parse-community_string :
    (v : ℤ) (c : Community)
    → All IsInt (v ∷ c)
    → parse_community_value (community_string (v ∷ c))
      ≡ parsed (filter_of (community_string (v ∷ c)) (community (v ∷ c)))
unfolding parse_community_value
parse-community_string v c hs = rw (split-community_string v c, parse_parts-itoa (v ∷ c) hs) refl

-- The token for a community of at least two ints gives a filter for that community, in the group of
-- the communities if there are two, in the group of the large communities if there are more.
pub parse-token :
    (v w : ℤ) (c : Community)
    → All IsInt (v ∷ w ∷ c)
    → parse_community_filter_text (community_string (v ∷ w ∷ c))
      ≡ parsed (
        if nat_beq (length c) 0 then search_key_communities else search_key_large_communities,
        filter_of (community_string (v ∷ w ∷ c)) (community (v ∷ w ∷ c)),
      )
unfolding parse_community_filter_text
parse-token v w c hs =
    rw
      (
        parse_community_filter_text,
        split-community_string v (w ∷ c),
        atoi-itoa v hs.0,
        parse-community_string v (w ∷ c) hs,
        length-map itoa c,
      )
      refl
