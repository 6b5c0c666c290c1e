-- ===== src/Api/Community.antt =====
-- pkg/api/response.go: communities, extended communities and the BGP attributes of a route.
pub mod Membership
use alice_lg.Common.{
  ℕ, Bool, true, false, ◌&&◌, Option, none, some, List, [], ◌∷◌, ◌++◌, length, any, nat_beq,
  list_beq, if◌then◌else◌, ◌>>=◌, Eq, nat_eq, ◌↔◌, ◌≡◌, arith, list_beq_iff,
}
use alice_lg.Common.Ints.{ℤ, int_beq, int_eq}
use alice_lg.Common.Texts.{Text, itoa}

-- type Community []int
abbrev pub Community : Type 0
Community = List ℤ

-- An element of an extended community, `any` in the source: a string or an int.
pub data Part : Type 0 where
  text : Text → Part
  num : ℤ → Part

abbrev pub part_beq : Part → Part → Bool
part_beq (text s) (text t) = list_beq s t
part_beq (num a) (num b) = int_beq a b
part_beq _ _ = false

pub part_beq_iff : (a b : Part) → (part_beq a b ≡ true) ↔ (a ≡ b)
part_beq_iff (text s) (text t) = ground (arith, list_beq_iff s t)
part_beq_iff (num a) (num b) = ground (arith, int_eq.beq_iff a b)
part_beq_iff (text s) (num b) = ground arith
part_beq_iff (num a) (text t) = ground arith

instance abbrev pub part_eq : Eq Part
part_eq = record { beq = part_beq; beq_iff = part_beq_iff }

-- type ExtCommunity []any
abbrev pub ExtCommunity : Type 0
ExtCommunity = List Part

-- The rounds of the loop of `Community.String` after the first.
unfoldable pub later_parts : Community → Text
later_parts [] = []
later_parts (v ∷ c) = b':' ∷ itoa v ++ later_parts c

-- Community.String
unfoldable pub community_string : Community → Text
unfolding later_parts
community_string [] = []
community_string (v ∷ c) = itoa v ++ later_parts c

-- The rounds of the loop of `ExtCommunity.String` after the first: a type assertion to int.
unfoldable pub later_ext_parts : ExtCommunity → Option Text
later_ext_parts [] = some []
later_ext_parts (num v ∷ c) = do rest ← later_ext_parts c; some (b':' ∷ itoa v ++ rest)
later_ext_parts (text s ∷ c) = none

-- ExtCommunity.String; `none` is the panic of a failed type assertion.
unfoldable pub ext_string : ExtCommunity → Option Text
unfolding later_ext_parts
ext_string [] = some []
ext_string (text s ∷ c) = do rest ← later_ext_parts c; some (s ++ rest)
ext_string (num v ∷ c) = none

-- api.BGPInfo
pub record BgpInfo : Type 0 where
  pub origin : Option Text
  pub as_path : List ℤ
  pub next_hop : Option Text
  pub communities : List Community
  pub large_communities : List Community
  pub ext_communities : List ExtCommunity
  pub local_pref : ℤ
  pub med : ℤ
  pub otc : Option ℤ

-- Comparison of the first two, and of the first three components; the callers have compared the
-- lengths.
unfoldable pub two_equal : Community → Community → Bool
two_equal (a ∷ b ∷ _) (c ∷ d ∷ _) = int_beq a c && int_beq b d
two_equal _ _ = false

unfoldable pub three_equal {ℓ} : {A : Type ℓ} ⦃e : Eq A⦄ → List A → List A → Bool
three_equal ⦃e⦄ (a ∷ b ∷ c ∷ _) (x ∷ y ∷ z ∷ _) = e.beq a x && e.beq b y && e.beq c z
three_equal _ _ = false

-- BGPInfo.HasCommunity
unfoldable pub has_community : BgpInfo → Community → Bool
unfolding two_equal any
has_community bgp community =
    if nat_beq (length community) 2
    then any
        (λ own. if nat_beq (length own) (length community) then two_equal own community else false)
        bgp.communities
    else false

-- BGPInfo.HasExtCommunity
unfoldable pub has_ext_community : BgpInfo → ExtCommunity → Bool
unfolding three_equal any
has_ext_community bgp community =
    if nat_beq (length community) 3
    then any
        (λ own.
          if nat_beq (length own) (length community) then three_equal own community else false)
        bgp.ext_communities
    else false

-- BGPInfo.HasLargeCommunity
unfoldable pub has_large_community : BgpInfo → Community → Bool
unfolding three_equal any
has_large_community bgp community =
    if nat_beq (length community) 3
    then any
        (λ own.
          if nat_beq (length own) (length community) then three_equal own community else false)
        bgp.large_communities
    else false
