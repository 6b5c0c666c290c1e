-- ===== src/Config/Communities/Ranges.antt =====
-- The ranges of a community as a text.
use alice_lg.Common.{
  ℕ, ◌≡◌, refl, ◌∙◌, ap, false, some, List, [], ◌∷◌, ◌++◌, map, All, length, nat_beq, if◌then◌else◌,
  arith, All-append, nat_eq,
}
use alice_lg.Common.Ints.{pos, IsInt}
use alice_lg.Common.Texts.{Text, join, itoa}
use alice_lg.Common.Texts.Splitting.{Free, split-join}
use alice_lg.Common.Texts.Numbers.{atoi-itoa, itoa-All, itoa_pos-All}
use alice_lg.Config.Expand.Variables.{cut}
use alice_lg.Config.Communities.{
  RangePart, ints, std, large, get_type, int_list_from_strings, range_of, ranges_of, int_range,
  int_ranges, range_community, parse_range_community,
}

-- The text of a range
abbrev pub range_text : ℕ × ℕ → Text
range_text (low, high) = itoa (pos low) ++ b'-' ∷ itoa (pos high)

-- The text of a community
abbrev pub ranges_text : List (ℕ × ℕ) → Text
ranges_text ranges = join b':' (map range_text ranges)

-- Two ends of a range are ints.
abbrev pub IsRange : ℕ × ℕ → Type 0
IsRange (low, high) = IsInt (pos low) × IsInt (pos high)

-- A range, as it is parsed
abbrev pub range_part : ℕ × ℕ → RangePart
range_part (low, high) = ints (pos low ∷ pos high ∷ [])

cut-first :
    (sep : ℕ) (t s : Text)
    → All (λ c. nat_beq c sep ≡ false) t
    → cut sep (t ++ sep ∷ s) ≡ some (t, s)
unfolding cut
cut-first sep [] s free = ground arith
cut-first sep (c ∷ t) s free = rw (free.0, cut-first sep t s free.1) refl

range_text-Free : (r : ℕ × ℕ) → Free b':' (range_text r)
range_text-Free (low, high) =
    All-append (λ c. nat_beq c b':' ≡ false) (itoa (pos low)) (b'-' ∷ itoa (pos high))
      (itoa-All (pos low)) (refl, itoa-All (pos high))

all_Free : (rs : List (ℕ × ℕ)) → All (Free b':') (map range_text rs)
all_Free [] = tt
all_Free (r ∷ rs) = (range_text-Free r, all_Free rs)

-- The two texts of a range
abbrev ends : ℕ × ℕ → Text × Text
ends (low, high) = (itoa (pos low), itoa (pos high))

ranges_of-texts : (rs : List (ℕ × ℕ)) → ranges_of (map range_text rs) ≡ map ends rs
unfolding ranges_of range_of
ranges_of-texts [] = refl
ranges_of-texts ((low, high) ∷ rs) =
    rw
      (
        range_of,
        cut-first b'-' (itoa (pos low)) (itoa (pos high)) (itoa_pos-All low),
        ranges_of-texts rs,
      )
      refl

int_range-ends : (r : ℕ × ℕ) → IsRange r → int_range (ends r) ≡ range_part r
unfolding int_range int_list_from_strings
int_range-ends (low, high) h =
    rw (int_list_from_strings, atoi-itoa (pos low) h.0, atoi-itoa (pos high) h.1) refl

int_ranges-ends :
    (rs : List (ℕ × ℕ)) → All IsRange rs → int_ranges (map ends rs) ≡ map range_part rs
unfolding int_ranges
int_ranges-ends [] h = refl
int_ranges-ends (r ∷ rs) h = rw (int_range-ends r h.0, int_ranges-ends rs h.1) refl

range_community-ends :
    (r s : ℕ × ℕ) (rs : List (ℕ × ℕ))
    → All IsRange (r ∷ s ∷ rs)
    → range_community (map ends (r ∷ s ∷ rs)) ≡ some (map range_part (r ∷ s ∷ rs))
unfolding range_community
range_community-ends r s rs h =
    rw (range_community, atoi-itoa (pos r.0) h.0.0) (ap some (int_ranges-ends (r ∷ s ∷ rs) h))

get_type-ints :
    (r s : ℕ × ℕ) (rs : List (ℕ × ℕ))
    → get_type (map range_part (r ∷ s ∷ rs)) ≡ some (if nat_beq (length rs) 0 then std else large)
unfolding get_type
get_type-ints r s [] = refl
get_type-ints r s (t ∷ rs) = ground arith

-- The text of at least two ranges of ints that are not negative is parsed to these ranges, as a
-- community if there are two, as a large community if there are more.
pub parse-ranges_text :
    (r s : ℕ × ℕ) (rs : List (ℕ × ℕ))
    → All IsRange (r ∷ s ∷ rs)
    → (parse_range_community (ranges_text (r ∷ s ∷ rs)) ≡ some (map range_part (r ∷ s ∷ rs)))
      × (get_type (map range_part (r ∷ s ∷ rs))
          ≡ some (if nat_beq (length rs) 0 then std else large))
unfolding parse_range_community get_type
parse-ranges_text r s rs h = (
  ap (λ ts. range_community (ranges_of ts))
        (split-join b':' (range_text r) (map range_text (s ∷ rs)) (all_Free (r ∷ s ∷ rs)))
      ∙ ap range_community (ranges_of-texts (r ∷ s ∷ rs))
      ∙ range_community-ends r s rs h,
  get_type-ints r s rs,
)
