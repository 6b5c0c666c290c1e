-- ===== src/Common/Texts.antt =====
-- Go's strings as lists of code points, with what the program uses of `strings` and `strconv`.
-- Case mapping covers the ASCII letters.
pub mod Numbers
pub mod Splitting
use Prim.Native.Char.{code}
use Prim.Native.String.{String}
use Prim.Native.Nat.{ℕ, zero, suc, ◌+◌, ◌-◌, ◌*◌, ◌/◌, ◌%◌, ◌^◌}
use mathlib.Core.Bool.{Bool, true, false, ◌&&◌, ◌||◌}
use mathlib.Core.List.{List, [], ◌∷◌, ◌++◌, reverse}
use alice_lg.Common.Tests.{ltb, leb, nat_beq, if◌then◌else◌}
use alice_lg.Common.Equality.{◌==◌, nat_eq, list_eq}
use alice_lg.Common.Ints.{ℤ, pos, negsuc}

abbrev pub Text : Type 0
Text = List ℕ

abbrev pub codes : String → Text
codes String.[] = []
codes (String.◌∷◌ c s) = code c ∷ codes s

-- What `len` of a Go string counts: the bytes of the UTF-8 encoding.
unfoldable pub byte_length : Text → ℕ
byte_length [] = 0
byte_length (c ∷ s) =
    (if ltb c 0x80 then 1 else if ltb c 0x800 then 2 else if ltb c 0x10000 then 3 else 4)
    + byte_length s

unfoldable pub lower_char : ℕ → ℕ
lower_char c = if leb b'A' c && leb c b'Z' then c + 32 else c

-- strings.ToLower
unfoldable pub to_lower : Text → Text
unfolding lower_char
to_lower [] = []
to_lower (c ∷ s) = lower_char c ∷ to_lower s

-- strings.HasPrefix s p
unfoldable pub has_prefix : Text → Text → Bool
has_prefix s [] = true
has_prefix [] (c ∷ p) = false
has_prefix (d ∷ s) (c ∷ p) = nat_beq d c && has_prefix s p

-- strings.Contains s p
unfoldable pub contains : Text → Text → Bool
unfolding has_prefix
contains [] p = has_prefix [] p
contains (c ∷ s) p = has_prefix (c ∷ s) p || contains s p

-- The first of the pieces gets one more character.
abbrev pub extend_head : ℕ → List Text → List Text
extend_head c [] = (c ∷ []) ∷ []
extend_head c (t ∷ ts) = (c ∷ t) ∷ ts

-- strings.Split at a separator of one character
unfoldable pub split : ℕ → Text → List Text
split sep [] = [] ∷ []
split sep (c ∷ s) =
    let rest = split sep s in if nat_beq c sep then [] ∷ rest else extend_head c rest

-- strings.Join
unfoldable pub join : ℕ → List Text → Text
join sep [] = []
join sep (t ∷ []) = t
join sep (t ∷ u ∷ ts) = t ++ sep ∷ join sep (u ∷ ts)

-- unicode.IsSpace
unfoldable pub is_space : ℕ → Bool
is_space c =
    leb 9 c && leb c 13
    || c == 32
    || c == 0x85
    || c == 0xA0
    || c == 0x1680
    || leb 0x2000 c && leb c 0x200A
    || c == 0x2028
    || c == 0x2029
    || c == 0x202F
    || c == 0x205F
    || c == 0x3000

unfoldable pub trim_left : Text → Text
unfolding is_space
trim_left [] = []
trim_left (c ∷ s) = let rest = trim_left s in if is_space c then rest else c ∷ s

-- strings.TrimSpace
unfoldable pub trim_space : Text → Text
unfolding trim_left
trim_space s = reverse (trim_left (reverse (trim_left s)))

-- strconv.ParseUint in base 10: the digits one after the other. A character that is no digit is
-- a syntax error, a value above 64 bits a range error; the first of them ends the loop.
pub data Parsed : Type 0 where
  number : ℕ → Parsed
  syntax range : Parsed

unfoldable pub parse_digits : ℕ → Text → Parsed
parse_digits n [] = number n
parse_digits n (c ∷ s) =
    let m = n * 10 + (c - 48) in
    let rest = parse_digits m s in
    if leb 48 c && leb c 57 then (if ltb m (2 ^ 64) then rest else range) else syntax

unfoldable pub parse_uint : Text → Parsed
unfolding parse_digits
parse_uint [] = syntax
parse_uint (c ∷ s) = parse_digits 0 (c ∷ s)

-- The value that `strconv.Atoi` returns, and whether its error is nil. A range error comes with
-- the nearest `int`, a syntax error with 0.
abbrev pub positive : Parsed → ℤ × Bool
positive (number n) = if ltb n (2 ^ 63) then (pos n, true) else (pos (2 ^ 63 - 1), false)
positive syntax = (pos 0, false)
positive range = (pos (2 ^ 63 - 1), false)

abbrev pub negate : ℕ → ℤ
negate zero = pos 0
negate (suc n) = negsuc n

abbrev pub negative : Parsed → ℤ × Bool
negative (number n) = if leb n (2 ^ 63) then (negate n, true) else (negsuc (2 ^ 63 - 1), false)
negative syntax = (pos 0, false)
negative range = (negsuc (2 ^ 63 - 1), false)

-- strconv.Atoi
unfoldable pub atoi : Text → ℤ × Bool
unfolding parse_uint
atoi [] = (pos 0, false)
atoi (c ∷ s) =
    if c == b'-'
    then negative (parse_uint s)
    else if c == b'+'
    then positive (parse_uint s)
    else positive (parse_uint (c ∷ s))

-- The decimal digits of a number below 10 ^ fuel.
unfoldable pub print_digits : ℕ → ℕ → Text
print_digits zero n = []
print_digits (suc f) n =
    let high = print_digits f (n / 10) in
    if ltb n 10 then (48 + n) ∷ [] else high ++ (48 + n % 10) ∷ []

unfoldable pub print_nat : ℕ → Text
unfolding print_digits
print_nat n = print_digits (suc n) n

-- strconv.Itoa
unfoldable pub itoa : ℤ → Text
unfolding print_nat
itoa (pos n) = print_nat n
itoa (negsuc n) = b'-' ∷ print_nat (n + 1)
