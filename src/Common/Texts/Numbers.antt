-- ===== src/Common/Texts/Numbers.antt =====
-- The decimal text of an int is read back.
use Prim.Native.Nat.{ℕ, zero, suc, ◌+◌, ◌-◌, ◌*◌, ◌/◌, ◌%◌, ◌^◌, ◌≤◌, ◌<◌}
use mathlib.Core.Path.{◌≡◌, refl, ap, sym, ◌∙◌}
use mathlib.Core.Logic.{inl, inr}
use mathlib.Core.Bool.{true, false}
use mathlib.Core.List.{[], ◌∷◌, ◌++◌, append_assoc, append-nil}
use native.Mathlib.Omega.{arith}
use alice_lg.Common.Tests.{ltb, lt→ltb, leb, nat_beq, Bool-cases}
use alice_lg.Common.Ints.{ℤ, pos, negsuc, IsInt}
use alice_lg.Common.Lists.{All, All-append, length}
use alice_lg.Common.Texts.{
  Text, parse_digits, parse_uint, print_digits, print_nat, atoi, itoa, number, positive, negative,
}

digit_back : (d : ℕ) → 48 + d - 48 ≡ d
digit_back d = omega arith

digit_low : (d : ℕ) → leb 48 (48 + d) ≡ true
digit_low d = ground arith

digit_high : (d : ℕ) → d < 10 → leb (48 + d) 57 ≡ true
digit_high d h = ground arith

read_digit :
    (a d : ℕ) (s : Text)
    → d < 10
    → a * 10 + d < 2 ^ 64
    → parse_digits a ((48 + d) ∷ s) ≡ parse_digits (a * 10 + d) s
unfolding parse_digits
read_digit a d s digit small =
    rw (digit_back d, lt→ltb (a * 10 + d) (2 ^ 64) small, digit_low d, digit_high d digit) refl

-- The digits of a number, read after nothing, give the number; then the rest is read.
parse_digits-print_digits :
    (f n : ℕ) (s : Text)
    → n < f
    → n < 2 ^ 64
    → parse_digits 0 (print_digits f n ++ s) ≡ parse_digits n s
unfolding parse_digits print_digits
parse_digits-print_digits zero n s fuel small = absurd (omega (arith, fuel))
parse_digits-print_digits (suc f) n s fuel small = elim (Bool-cases (ltb n 10)) [
  | inl one ↦ rw one (
      read_digit 0 n s (ground (arith, one)) (omega (arith, small))
      ∙ ap (λ m. parse_digits m s) (omega arith))
  | inr more ↦ rw more (
      ap (parse_digits 0) (append_assoc (print_digits f (n / 10)) ((48 + n % 10) ∷ []) s)
      ∙ parse_digits-print_digits f (n / 10) ((48 + n % 10) ∷ s) (ground (arith, more, fuel))
          (ground (arith, small))
      ∙ read_digit (n / 10) (n % 10) s (omega arith) (ground (arith, small))
      ∙ ap (λ m. parse_digits m s) (omega arith))
]

IsDigit : ℕ → Type 0
IsDigit c = (48 ≤ c) × (c ≤ 57)

print_digits-All : (f n : ℕ) → All IsDigit (print_digits f n)
unfolding print_digits IsDigit
print_digits-All zero n = tt
print_digits-All (suc f) n = elim (Bool-cases (ltb n 10)) [
  | inl one ↦ rw one ((omega arith, ground (arith, one)), tt)
  | inr more ↦ rw more (
      All-append IsDigit (print_digits f (n / 10)) ((48 + n % 10) ∷ [])
        (print_digits-All f (n / 10)) ((omega arith, omega arith), tt))
]

snoc_length : (t : Text) (c : ℕ) → 0 < length (t ++ c ∷ [])
snoc_length [] c = omega arith
snoc_length (d ∷ t) c = omega arith

print_digits-length : (f n : ℕ) → 0 < length (print_digits (suc f) n)
unfolding print_digits
print_digits-length f n = elim (Bool-cases (ltb n 10)) [
  | inl one ↦ rw one (omega arith)
  | inr more ↦ rw more (snoc_length (print_digits f (n / 10)) (48 + n % 10))
]

parse_uint-digits : (t : Text) → 0 < length t → parse_uint t ≡ parse_digits 0 t
unfolding parse_uint
parse_uint-digits [] h = absurd (omega (arith, h))
parse_uint-digits (c ∷ t) h = refl

atoi-digits : (t : Text) → 0 < length t → All IsDigit t → atoi t ≡ positive (parse_digits 0 t)
unfolding atoi parse_uint IsDigit
atoi-digits [] h digits = absurd (omega (arith, h))
atoi-digits (c ∷ t) h digits = ground (arith, digits.0)

read_nat : (n : ℕ) → n < 2 ^ 64 → parse_digits 0 (print_nat n) ≡ number n
unfolding print_nat parse_digits
read_nat n small =
    ap (parse_digits 0) (sym (append-nil (print_digits (suc n) n)))
    ∙ parse_digits-print_digits (suc n) n [] (omega arith) small

-- `Atoi` reads back what `Itoa` wrote.
pub atoi-itoa : (z : ℤ) → IsInt z → atoi (itoa z) ≡ (z, true)
unfolding itoa print_nat atoi
atoi-itoa (pos n) h =
    atoi-digits (print_nat n) (print_digits-length n n) (print_digits-All (suc n) n)
    ∙ ap positive (read_nat n (omega (arith, h)))
    ∙ ground (arith, h)
atoi-itoa (negsuc n) h =
    ap negative (
      parse_uint-digits (print_nat (n + 1)) (print_digits-length (n + 1) (n + 1))
      ∙ read_nat (n + 1) (omega (arith, h)))
    ∙ ground (arith, h)

no_colon : (t : Text) → All IsDigit t → All (λ c. nat_beq c b':' ≡ false) t
unfolding IsDigit
no_colon [] digits = tt
no_colon (c ∷ t) digits = (ground (arith, digits.0), no_colon t digits.1)

no_dash : (t : Text) → All IsDigit t → All (λ c. nat_beq c b'-' ≡ false) t
unfolding IsDigit
no_dash [] digits = tt
no_dash (c ∷ t) digits = (ground (arith, digits.0), no_dash t digits.1)

-- There is no colon in a number.
pub itoa-All : (z : ℤ) → All (λ c. nat_beq c b':' ≡ false) (itoa z)
unfolding itoa print_nat
itoa-All (pos n) = no_colon (print_nat n) (print_digits-All (suc n) n)
itoa-All (negsuc n) = (refl, no_colon (print_nat (n + 1)) (print_digits-All (suc (n + 1)) (n + 1)))

-- There is no dash in a number that is not negative.
pub itoa_pos-All : (n : ℕ) → All (λ c. nat_beq c b'-' ≡ false) (itoa (pos n))
unfolding itoa print_nat
itoa_pos-All n = no_dash (print_nat n) (print_digits-All (suc n) n)
