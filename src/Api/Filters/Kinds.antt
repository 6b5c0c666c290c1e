-- ===== src/Api/Filters/Kinds.antt =====
-- Filters of one kind: their comparison never panics, and finds the same value only.
use alice_lg.Common.{
  ◌≡◌, refl, ap, Bool, true, false, Option, none, some, List, [], ◌∷◌, length, any, all, All,
  nat_eq, list_eq, list_beq_iff, arith,
}
use alice_lg.Common.Texts.{Text}
use alice_lg.Common.Ints.{int_eq}
use alice_lg.Api.Community.{Community, ExtCommunity, three_equal, part_eq}
use alice_lg.Api.Filters.Value.{
  Filter, FilterValue, int, uint8, string, pointer, community, ext_community, equal, equal_values,
  value_string, cmp_int, cmp_string, cmp_community, cmp_ext_community, components_equal,
}
use alice_lg.Api.Filters.Group.{find_in}
use alice_lg.Api.Filters.Combine.{is_found}

-- The kinds of values that the filters of a query have.
pub data Kind : Type 0 where
  ints strings communities ext_communities : Kind

abbrev pub kind_of : FilterValue → Option Kind
kind_of (int v) = some ints
kind_of (string s) = some strings
kind_of (community c) = some communities
kind_of (ext_community c) = some ext_communities
kind_of (uint8 v) = none
kind_of (pointer p) = none

-- A filter with a value of a kind, which can be printed.
pub record IsOf (k : Kind) (f : Filter) : Type 0 where
  pub kind : kind_of f.value ≡ some k
  pub ref : Text
  pub printed : value_string f.value ≡ some ref

abbrev pub Uniform : Kind → List Filter → Type 0
Uniform k = All (IsOf k)

module _ (k : Kind) where
  -- Two values of one kind can be compared.
  equal_total :
      (a b : FilterValue)
      → kind_of a ≡ some k
      → kind_of b ≡ some k
      → (same : Bool) × (equal_values a b ≡ some same)
  unfolding equal_values cmp_int cmp_string cmp_community cmp_ext_community
  equal_total (int v) (int w) ha hb = (_, refl)
  equal_total (string v) (string w) ha hb = (_, refl)
  equal_total (community v) (community w) ha hb = (_, refl)
  equal_total (ext_community v) (ext_community w) ha hb = (_, refl)
  equal_total a b ha hb = absurd (ground arith)

  components_sound : (c d : Community) → length c ≡ length d → components_equal c d ≡ true → c ≡ d
  unfolding components_equal
  components_sound [] [] n h = refl
  components_sound [] (b ∷ d) n h = absurd (omega arith)
  components_sound (a ∷ c) [] n h = cc
  components_sound (a ∷ c) (b ∷ d) n h = ground (arith, int_eq.beq_iff a b, components_sound c d)

  three_sound : (c d : ExtCommunity) → length c ≡ 3 → length d ≡ 3 → three_equal c d ≡ true → c ≡ d
  unfolding three_equal
  three_sound (a ∷ b ∷ c ∷ []) (x ∷ y ∷ z ∷ []) n m h =
      ground (arith, part_eq.beq_iff a x, part_eq.beq_iff b y, part_eq.beq_iff c z)
  three_sound c d n m h = absurd (omega arith)

  -- Values of one kind that compare equal are equal.
  equal_sound :
      (a b : FilterValue)
      → kind_of a ≡ some k
      → kind_of b ≡ some k
      → equal_values a b ≡ some true
      → a ≡ b
  unfolding equal_values cmp_int cmp_string cmp_community cmp_ext_community
  equal_sound (int v) (int w) ha hb h = ground (arith, int_eq.beq_iff v w)
  equal_sound (string v) (string w) ha hb h = ground (arith, list_beq_iff v w)
  equal_sound (community v) (community w) ha hb h = ground (arith, components_sound v w)
  equal_sound (ext_community v) (ext_community w) ha hb h = ground (arith, three_sound v w)
  equal_sound a b ha hb h = ground arith

abbrev pub all_values : (FilterValue → Bool) → List Filter → Bool
all_values p fs = all (λ f. p f.value) fs

abbrev pub any_value : (FilterValue → Bool) → List Filter → Bool
any_value p fs = any (λ f. p f.value) fs

-- What a test on values says of a filter that a list has an equal of.
abbrev pub Implied : List Filter → Filter → Type 0
Implied fs f =
    (p : FilterValue → Bool)
    → (all_values p fs ≡ true → p f.value ≡ true) × (p f.value ≡ true → any_value p fs ≡ true)

module _ (k : Kind) (f : Filter) (hf : kind_of f.value ≡ some k) where
  pub find_in_lem :
      (fs : List Filter)
      → Uniform k fs
      → (found : Option Filter) × (find_in fs f ≡ some found)
        × (is_found found ≡ true → Implied fs f)
  unfolding find_in equal all any
  find_in_lem [] h = (none, refl, λ e. cc)
  find_in_lem (g ∷ fs) (hg, hs) =
      let (same, compared) = equal_total k g.value f.value hg.kind hf in
      let (found, searched, implied) = find_in_lem fs hs in
      step same compared found searched implied
    where
      step :
          (same : Bool)
          → equal_values g.value f.value ≡ some same
          → (found : Option Filter) → find_in fs f ≡ some found
          → (is_found found ≡ true → Implied fs f)
          → (found' : Option Filter) × (find_in (g ∷ fs) f ≡ some found')
            × (is_found found' ≡ true → Implied (g ∷ fs) f)
      step true compared found searched implied = (
        some g,
        rw compared refl,
        λ e p. ground (arith, ap p (equal_sound k g.value f.value hg.kind hf compared)),
      )
      step false compared found searched implied =
          (found, rw (compared, searched) refl, λ e p. ground (arith, implied e p))
