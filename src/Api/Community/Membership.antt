-- ===== src/Api/Community/Membership.antt =====
-- The three tests for a community are membership tests for communities of the right length.
use alice_lg.Common.{
  Bool, false, ◌&&◌, List, [], ◌∷◌, length, any, nat_beq, list_beq, if◌then◌else◌, Eq, Bool-cases,
  inl, inr, ◌≡◌, refl, arith,
}
use mathlib.Core.Path.{fun_ext}
use alice_lg.Common.Ints.{int_eq}
use alice_lg.Api.Community.{
  BgpInfo, Community, ExtCommunity, two_equal, three_equal, has_community, has_ext_community,
  has_large_community, part_eq,
}

-- Whether a list is an element of a list of lists.
unfoldable pub is_member {ℓ} : {A : Type ℓ} ⦃e : Eq A⦄ → List A → List (List A) → Bool
is_member c = any (λ own. list_beq own c)

module _ {A : Type 0} ⦃e : Eq A⦄ where
  -- The loops compare lengths and then components by position: for a community of the right
  -- length that is the comparison of the lists.
  three_lem :
      (c own : List A)
      → length c ≡ 3
      → (if nat_beq (length own) (length c) then three_equal own c else false) ≡ list_beq own c
  unfolding three_equal
  three_lem (x ∷ y ∷ z ∷ []) [] h = ground arith
  three_lem (x ∷ y ∷ z ∷ []) (a ∷ []) h = ground arith
  three_lem (x ∷ y ∷ z ∷ []) (a ∷ b ∷ []) h = ground arith
  three_lem (x ∷ y ∷ z ∷ []) (a ∷ b ∷ c ∷ []) h = ground arith
  three_lem (x ∷ y ∷ z ∷ []) (a ∷ b ∷ c ∷ d ∷ own) h = ground arith
  three_lem _ own h = absurd (omega arith)

two_lem :
    (c own : Community)
    → length c ≡ 2
    → (if nat_beq (length own) (length c) then two_equal own c else false) ≡ list_beq own c
unfolding two_equal
two_lem (x ∷ y ∷ []) [] h = ground arith
two_lem (x ∷ y ∷ []) (a ∷ []) h = ground arith
two_lem (x ∷ y ∷ []) (a ∷ b ∷ []) h = ground arith
two_lem (x ∷ y ∷ []) (a ∷ b ∷ c ∷ own) h = ground arith
two_lem _ own h = absurd (omega arith)

-- A community of two parts is found exactly when it is an element of the route's communities; one
-- of another length never is.
pub has_community_exact :
    (bgp : BgpInfo) (c : Community)
    → has_community bgp c ≡ (nat_beq (length c) 2 && is_member c bgp.communities)
unfolding has_community is_member
has_community_exact bgp c = elim (Bool-cases (nat_beq (length c) 2)) [
  | inl two ↦ rw (two, fun_ext (λ own. two_lem c own (ground arith))) refl
  | inr other ↦ rw other refl
]

-- A community of three parts is found exactly when it is an element of the route's large
-- communities; one of another length never is.
pub has_large_community_exact :
    (bgp : BgpInfo) (c : Community)
    → has_large_community bgp c ≡ (nat_beq (length c) 3 && is_member c bgp.large_communities)
unfolding has_large_community is_member
has_large_community_exact bgp c = elim (Bool-cases (nat_beq (length c) 3)) [
  | inl three ↦ rw (three, fun_ext (λ own. three_lem c own (ground arith))) refl
  | inr other ↦ rw other refl
]

-- An extended community of three parts is found exactly when it is an element of the route's
-- extended communities; one of another length never is.
pub has_ext_community_exact :
    (bgp : BgpInfo) (c : ExtCommunity)
    → has_ext_community bgp c ≡ (nat_beq (length c) 3 && is_member c bgp.ext_communities)
unfolding has_ext_community is_member
has_ext_community_exact bgp c = elim (Bool-cases (nat_beq (length c) 3)) [
  | inl three ↦ rw (three, fun_ext (λ own. three_lem c own (ground arith))) refl
  | inr other ↦ rw other refl
]
