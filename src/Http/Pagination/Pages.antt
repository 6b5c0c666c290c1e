-- ===== src/Http/Pagination/Pages.antt =====
-- What a client reads page by page.
use alice_lg.Common.{
  ℕ, zero, suc, ◌+◌, ◌*◌, ◌^◌, ◌<◌, ◌≡◌, refl, ◌∙◌, ap, Option, some, List, [], ◌∷◌, ◌++◌, length,
  take, drop, arith, ltb, leb, length-drop, drop_all, take_all, ◌>>=◌, ◌-◌, ◌/◌, if◌then◌else◌,
}
use native.Mathlib.Nat.{zero-mul, suc-add}
use alice_lg.Common.Ints.{pos, negsuc, ◌+ℤ◌, ◌*ℤ◌, wrap_id}
use alice_lg.Http.Pagination.{info, ceil_div, slice, page_at, paginate}

mul_pos : (a b : ℕ) → pos a *ℤ pos b ≡ pos (a * b)
unfolding ◌*ℤ◌
mul_pos a b = ground arith

add_pos : (a b : ℕ) → pos a +ℤ pos b ≡ pos (a + b)
unfolding ◌+ℤ◌
add_pos a b = ground arith

mul_negsuc : (k s : ℕ) → negsuc k *ℤ pos (suc s) ≡ negsuc (k * suc s + s)
unfolding ◌*ℤ◌
mul_negsuc k s = ground arith

take_nil {ℓ} : {A : Type ℓ} (n : ℕ) → take {A = A} n [] ≡ []
take_nil zero = refl
take_nil (suc n) = refl

take-add {ℓ} :
    {A : Type ℓ} (n k : ℕ) (xs : List A) → take n xs ++ take k (drop n xs) ≡ take (n + k) xs
take-add zero k xs = ap (λ m. take m xs) (omega arith)
take-add (suc n) k [] = simp (take_nil, suc-add)
take-add (suc n) k (x ∷ xs) = rw suc-add (ap (◌∷◌ x) (take-add n k xs))

-- The items of a page: `size` of them from the start of page `p` on.
abbrev pub items {ℓ} : {A : Type ℓ} → List A → ℕ → ℕ → List A
items routes p size = take size (drop (p * size) routes)

module _ {A : Type 0} (routes : List A) where
  window :
      (o s : ℕ)
      → (if leb (length routes) o
          then []
          else take
              ((if ltb (length routes) (o + s) then length routes else o + s) - o)
              (drop o routes))
        ≡ take s (drop o routes)
  window o s = ground (
    arith,
    drop_all o routes,
    take_nil {A = A} s,
    length-drop o routes,
    take_all s (drop o routes),
    take_all (length routes - o) (drop o routes),
  )

  page_at_exact :
      (p s : ℕ)
      → 0 < s
      → p * s + s < 2 ^ 63
      → page_at routes (pos p) (pos s)
        ≡ some (items routes p s, info routes (pos p) (pos s) (ceil_div (length routes) (pos s)))
  unfolding page_at slice
  page_at_exact p s h fits = rw mul_pos (
      rw (wrap_id (pos (p * s)) (omega arith))
        (rw add_pos (rw (wrap_id (pos (p * s + s)) fits) (ground (arith, window (p * s) s)))))

  -- For a page and a page size that are not negative, and whose product fits an `int`, the handler
  -- returns the `s` items from position p * s on (fewer at the end, none past it), with the number
  -- of items and the number of pages, rounded up. It never panics there.
  pub paginate_exact :
      (p s : ℕ)
      → 0 < s
      → p * s + s < 2 ^ 63
      → paginate routes (pos p) (pos s)
        ≡ some (items routes p s, info routes (pos p) (pos s) (pos ((length routes + s - 1) / s)))
  unfolding paginate ceil_div
  paginate_exact p s h fits = ground (arith, page_at_exact p s h fits)

  -- The first `n` pages one after the other.
  unfoldable pub first_pages : ℕ → ℕ → Option (List A)
  first_pages s zero = some []
  first_pages s (suc n) = do
    before ← first_pages s n
    (part, _) ← paginate routes (pos n) (pos s)
    some (before ++ part)

  first_pages-take :
      (s n : ℕ) → 0 < s → n * s < 2 ^ 63 → first_pages s n ≡ some (take (n * s) routes)
  unfolding first_pages
  first_pages-take s zero h fits = rw zero-mul refl
  first_pages-take s (suc n) h fits = rw (first_pages-take s n h (omega arith)) (
      rw (paginate_exact n s h (omega arith))
        (ap some (take-add (n * s) s routes ∙ ap (λ k. take k routes) (omega arith))))

  -- Reading the pages from the first to the last that the handler announces gives every result
  -- exactly once, in order.
  pub first_pages-all :
      (s : ℕ)
      → 0 < s
      → length routes + s < 2 ^ 63
      → first_pages s ((length routes + s - 1) / s) ≡ some routes
  first_pages-all s h fits =
      first_pages-take s ((length routes + s - 1) / s) h (grind arith)
      ∙ ap some (take_all _ routes (grind arith))
