-- ===== src/Config/Communities.antt =====
-- pkg/config/bgp_communities.go: the communities of the configuration, with the ranges of
-- pkg/api/bgp_communities.go and IntListFromStrings of pkg/decoders/types.go. The lines of a text
-- are taken without their ends, which the parsers trim, and a last empty line is one more that they
-- skip. Log output is left out.
pub mod Ranges
use alice_lg.Common.{
  ℕ, ◌+◌, Bool, true, false, Option, none, some, List, [], ◌∷◌, ◌++◌, length, nat_beq, nat_eq,
  list_eq, list_beq, leb, if◌then◌else◌, ◌>>=◌,
}
use alice_lg.Common.Ints.{ℤ, pos}
use alice_lg.Common.Texts.{Text, codes, split, trim_space, has_prefix, atoi, itoa}
use alice_lg.Api.BgpCommunities.{Tree, set_label}
use alice_lg.Config.Expand.Variables.{cut}

-- An element of a BGPCommunityRange: an int slice or a string slice
pub data RangePart : Type 0 where
  texts : List Text → RangePart
  ints : List ℤ → RangePart

-- BGPCommunityRange
abbrev pub CommunityRange : Type 0
CommunityRange = List RangePart

-- The types of communities
pub data CommunityType : Type 0 where
  std large ext : CommunityType

-- BGPCommunityRange.Type; `none` is the panic for a range without parts.
unfoldable pub get_type : CommunityRange → Option CommunityType
get_type [] = none
get_type (p ∷ []) = elim p [ texts _ ↦ some ext | ints _ ↦ some large ]
get_type (p ∷ q ∷ []) = some std
get_type (p ∷ q ∷ r ∷ c) = elim p [ texts _ ↦ some ext | ints _ ↦ some large ]

-- IntListFromStrings
unfoldable pub int_list_from_strings : List Text → List ℤ
int_list_from_strings [] = []
int_list_from_strings (s ∷ strs) =
    let (v, parses) = atoi s in
    let rest = int_list_from_strings strs in if parses then v ∷ rest else rest

-- The two ends of a range; a single value is both.
unfoldable pub range_of : Text → Text × Text
range_of t = elim (cut b'-' t) [ none ↦ (t, t) | some (low, high) ↦ (low, high) ]

-- The first loop of parseRangeCommunity
unfoldable pub ranges_of : List Text → List (Text × Text)
ranges_of [] = []
ranges_of (t ∷ tokens) = range_of t ∷ ranges_of tokens

-- The ints of the two ends
unfoldable pub int_range : Text × Text → RangePart
int_range (low, high) = ints (int_list_from_strings (low ∷ high ∷ []))

-- The last loop of parseRangeCommunity
unfoldable pub int_ranges : List (Text × Text) → CommunityRange
int_ranges [] = []
int_ranges (p ∷ parts) = int_range p ∷ int_ranges parts

-- parseRangeCommunity once the text is in parts; `none` is ErrInvalidCommunity.
unfoldable pub range_community : List (Text × Text) → Option CommunityRange
range_community [] = none
range_community (p ∷ []) = none
range_community (p ∷ q ∷ parts) =
    let all_ints = int_ranges (p ∷ q ∷ parts) in
    if (atoi p.0).1 then some all_ints else elim parts [
      | [] ↦ none
      | r ∷ [] ↦ some (texts (p.0 ∷ p.0 ∷ []) ∷ int_range q ∷ int_range r ∷ [])
      | r ∷ s ∷ more ↦ none
    ]

-- parseRangeCommunity
unfoldable pub parse_range_community : Text → Option CommunityRange
parse_range_community s = range_community (ranges_of (split b':' s))

-- BGPCommunitiesSet
pub record CommunitiesSet : Type 0 where
  pub standard : List CommunityRange
  pub extended : List CommunityRange
  pub large_ranges : List CommunityRange

-- The switch of parseRangeCommunitiesSet; `none` is a panic.
unfoldable pub add_range : CommunitiesSet → CommunityRange → Option CommunitiesSet
add_range set comm = elim (get_type comm) [
  | none ↦ none
  | some t ↦ elim t [
    | std ↦ some (record set { standard = set.standard ++ comm ∷ [] })
    | large ↦ some (record set { large_ranges = set.large_ranges ++ comm ∷ [] })
    | ext ↦ some (record set { extended = set.extended ++ comm ∷ [] })
  ]
]

-- A set, an invalid community, or a panic
pub data ParsedSet : Type 0 where
  communities_set : CommunitiesSet → ParsedSet
  invalid_community : Text → ParsedSet
  set_panic : ParsedSet

-- The loop of parseRangeCommunitiesSet
unfoldable pub parse_lines : List Text → CommunitiesSet → ParsedSet
parse_lines [] set = communities_set set
parse_lines (l ∷ lines) set =
    let line = trim_space l in
    let skipped = parse_lines lines set in
    let parsed : ParsedSet = elim (parse_range_community line) [
      | none ↦ invalid_community line
      | some comm ↦ elim (add_range set comm) [
        | none ↦ set_panic
        | some added ↦ parse_lines lines added
      ]
    ] in
    if nat_beq (length line) 0
    then skipped
    else if has_prefix line (codes "#")
    then skipped
    else parsed

-- parseRangeCommunitiesSet
unfoldable pub parse_range_communities_set : Text → ParsedSet
parse_range_communities_set body =
    parse_lines (split 10 body) (record { standard = []; extended = []; large_ranges = [] })

-- The loop of parseAndMergeCommunities; `none` is a panic of Set.
unfoldable pub merge_lines : List Text → Tree → Option Tree
merge_lines [] communities = some communities
merge_lines (line ∷ lines) communities = elim (cut b'=' line) [
  | none ↦ merge_lines lines communities
  | some (key, value) ↦
      (set_label communities (trim_space key) (trim_space value) >>= merge_lines lines)
]

-- parseAndMergeCommunities
unfoldable pub parse_and_merge_communities : Tree → Text → Option Tree
parse_and_merge_communities communities body = merge_lines (split 10 body) communities

-- The inner loop of parseRejectionCandidateCommunities; the count goes on from line to line.
unfoldable pub set_candidates : List Text → ℕ → Tree → Option (ℕ × Tree)
set_candidates [] n comms = some (n, comms)
set_candidates (c ∷ cs) n comms =
    set_label comms c (codes "reject-candidate-" ++ itoa (pos (n + 1)))
    >>= set_candidates cs (n + 1)

-- The loop of parseRejectionCandidateCommunities
unfoldable pub candidate_lines : List Text → ℕ → Tree → Option Tree
candidate_lines [] n comms = some comms
candidate_lines (line ∷ lines) n comms = elim (cut b'=' line) [
  | none ↦ candidate_lines lines n comms
  | some (key, value) ↦
      let others = candidate_lines lines n comms in
      let candidates : Option Tree =
        set_candidates (split b',' (trim_space value)) n comms >>= λ counted.
        candidate_lines lines counted.0 counted.1 in
      if list_beq (trim_space key) (codes "communities") then candidates else others
]

-- parseRejectionCandidateCommunities
unfoldable pub parse_rejection_candidate_communities : Tree → Text → Option Tree
parse_rejection_candidate_communities comms s = candidate_lines (split 10 s) 0 comms
