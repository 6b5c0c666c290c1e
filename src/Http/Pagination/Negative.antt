-- ===== src/Http/Pagination/Negative.antt =====
-- Pages with a negative number, which `apiQueryMustInt` lets through.
use alice_lg.Common.{ℕ, List, length}
use alice_lg.Common.Ints.{ℤ, pos}
use alice_lg.Http.Pagination.{Pagination, info, ceil_div}

module _ {A : Type 0} (routes : List A) where
  abbrev announced : ℤ → ℕ → Pagination
  announced page s = info routes page (pos s) (ceil_div (length routes) (pos s))
