-- ===== src/Http/Pagination.antt =====
-- pkg/http/api_pagination.go: `apiPaginateRoutes` and `apiPaginateLookupRoutes`, the same function
-- at two types of items. Page and page size are Go's `int`; a slice expression out of bounds is a
-- panic, `none`. The quotient of the two float64 numbers, rounded up, is the exact ceiling (which
-- it is for fewer than 2 ^ 53 results).
pub mod Pages
pub mod Negative
use alice_lg.Common.{
  ℕ, ◌+◌, ◌-◌, ◌/◌, Bool, Option, none, some, List, [], length, take, drop, ltb, leb, ◌||◌,
  if◌then◌else◌, ◌>>=◌,
}
use alice_lg.Common.Ints.{ℤ, pos, negsuc, ◌+ℤ◌, ◌*ℤ◌, wrap, int_beq, ltb_ℤ, leb_ℤ}

-- api.Pagination
pub record Pagination : Type 0 where
  pub page : ℤ
  pub page_size : ℤ
  pub total_pages : ℤ
  pub total_results : ℕ

-- The ceiling of n / size.
unfoldable pub ceil_div : ℕ → ℤ → ℤ
ceil_div n (pos size) = pos ((n + size - 1) / size)
ceil_div n (negsuc k) = elim (n / (k + 1)) [ ℕ.zero ↦ pos 0 | ℕ.suc q ↦ negsuc q ]

abbrev min_ℤ : ℤ → ℤ → ℤ
min_ℤ a b = if ltb_ℤ b a then b else a

module _ {ℓ} {A : Type ℓ} where
  -- xs[lo:hi], which panics unless 0 <= lo <= hi <= len(xs)
  unfoldable pub slice : List A → ℤ → ℤ → Option (List A)
  slice xs (pos lo) (pos hi) =
      if ltb hi lo || ltb (length xs) hi then none else some (take (hi - lo) (drop lo xs))
  slice xs _ _ = none

  abbrev pub info : List A → ℤ → ℤ → ℤ → Pagination
  info routes page page_size total = record {
    page = page;
    page_size = page_size;
    total_pages = total;
    total_results = length routes;
  }

  -- The part after the test for a page size of 0.
  unfoldable pub page_at : List A → ℤ → ℤ → Option (List A × Pagination)
  page_at routes page page_size =
      let total_results = pos (length routes) in
      let pagination = info routes page page_size (ceil_div (length routes) page_size) in
      let offset = wrap (page *ℤ page_size) in
      let rindex = min_ℤ (wrap (offset +ℤ page_size)) total_results in
      let start = if ltb_ℤ offset (pos 0) then pos 0 else offset in
      if leb_ℤ total_results start
      then some ([], pagination)
      else do part ← slice routes start rindex; some (part, pagination)

  unfoldable pub paginate : List A → ℤ → ℤ → Option (List A × Pagination)
  paginate routes page page_size =
      if int_beq page_size (pos 0)
      then some (routes, info routes page page_size (pos 0))
      else page_at routes page page_size
