-- ===== src/Config/Expand/Placeholders.antt =====
-- The search of placeholders ends.
use alice_lg.Common.{
  ℕ, zero, suc, ◌-◌, ◌≤◌, ◌<◌, ◌≡◌, refl, Option, some, List, [], ◌∷◌, ◌++◌, length, All, All_map,
  arith, Option-cases, inl, inr,
}
use alice_lg.Common.Texts.{Text}
use alice_lg.Config.Expand.{
  closing, body, placeholder_at, find_all, trim_suffix, trim_prefix, get_key, with_inner,
  find_placeholders,
}

length-closing-le : (s : Text) → length (closing s) ≤ length s
unfolding closing
length-closing-le [] = omega arith
length-closing-le (c ∷ s) = ground (arith, length-closing-le s)

length-body-le : (s t : Text) → body s ≡ some t → length t ≤ length s
unfolding body
length-body-le [] t h = cc
length-body-le (c ∷ s) t h = elim (Option-cases (body s)) [
  | inl none' ↦ ground (arith, h, none', length-closing-le (c ∷ s))
  | inr (u, found) ↦ ground (arith, h, found, length-body-le s u, length-closing-le (c ∷ s))
]

length-trim_suffix-le : (x : ℕ) (s : Text) → length (trim_suffix x s) ≤ length s
unfolding trim_suffix
length-trim_suffix-le x [] = omega arith
length-trim_suffix-le x (c ∷ []) = ground arith
length-trim_suffix-le x (c ∷ d ∷ s) = omega (arith, length-trim_suffix-le x (d ∷ s))

-- The key of a placeholder is shorter than the text in which it starts.
key_lt : (s m : Text) → placeholder_at s ≡ some m → length (get_key m) < length s
unfolding placeholder_at get_key trim_prefix
key_lt [] m h = cc
key_lt (c ∷ s) m h = elim (Option-cases (body s)) [
  | inl none' ↦ ground (arith, h, none')
  | inr (t, found) ↦ ground (arith, h, found, length-body-le s t, length-trim_suffix-le b'}' t)
]

-- A text with a key shorter than a bound
abbrev Below : ℕ → Text → Type 0
Below n m = length (get_key m) < n

find_all-Below :
    (n skip : ℕ) (s : Text) → length s ≤ n → All (Below n) (find_all placeholder_at skip s)
unfolding find_all
find_all-Below n skip [] h = tt
find_all-Below n (suc skip) (c ∷ s) h = find_all-Below n skip s (omega arith)
find_all-Below n zero (c ∷ s) h = elim (Option-cases (placeholder_at (c ∷ s))) [
  | inl none' ↦ rw (find_all, none') (find_all-Below n 0 s (omega arith))
  | inr (m, found) ↦
      rw (find_all, found)
        (omega (arith, key_lt (c ∷ s) m found), find_all-Below n (length m - 1) s (omega arith))
]

with_inner_total :
    (deeper : Text → Option (List Text)) (results : List Text)
    → All (λ m. (r : List Text) × (deeper (get_key m) ≡ some r)) results
    → (r : List Text) × (with_inner deeper results ≡ some r)
unfolding with_inner
with_inner_total deeper [] h = ([], refl)
with_inner_total deeper (m ∷ results) ((inner, ran), h) =
    let (rest, run) = with_inner_total deeper results h in (m ∷ inner ++ rest, rw (ran, run) refl)

-- More fuel than the text has characters is enough for the search of placeholders, which calls
-- itself on the key of every match.
pub find_placeholders_total :
    (fuel : ℕ) (s : Text) → length s < fuel → (r : List Text) × (find_placeholders fuel s ≡ some r)
unfolding find_placeholders
find_placeholders_total zero s h = elim h [ ]
find_placeholders_total (suc fuel) s h =
    with_inner_total (find_placeholders fuel) (find_all placeholder_at 0 s) (
      All_map (Below (length s))
        (λ m. (r : List Text) × (find_placeholders fuel (get_key m) ≡ some r))
        (find_all placeholder_at 0 s)
        (λ m below. find_placeholders_total fuel (get_key m) (omega arith))
        (find_all-Below (length s) 0 s (omega arith)))
