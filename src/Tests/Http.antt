-- ===== src/Tests/Http.antt =====
-- The functions of pkg/http at concrete inputs.
use alice_lg.Common.{◌≡◌, refl, ℕ, List, [], ◌∷◌, some, arith}
use alice_lg.Common.Ints.{pos}
use alice_lg.Common.Texts.{codes, join, has_prefix}
use alice_lg.Http.Pagination.{paginate, info}
use alice_lg.Http.Pagination.Pages.{items, first_pages, paginate_exact, first_pages-all}
use alice_lg.Http.Query.{extract_filters}
use alice_lg.Http.Query.Tokens.{extract_filters-join}

abbrev results : List ℕ
results = 10 ∷ 20 ∷ 30 ∷ []

paginate_exact_example :
    paginate results (pos 1) (pos 2)
    ≡ some (items results 1 2, info results (pos 1) (pos 2) (pos 2))
paginate_exact_example = paginate_exact results 1 2 (omega arith) (omega arith)

first_pages-all_example : first_pages results 2 2 ≡ some results
first_pages-all_example = first_pages-all results 2 (omega arith) (omega arith)

extract_filters-join_example :
    extract_filters (join b' ' (codes "10." ∷ codes "#1:2" ∷ []))
    ≡ (join b' ' (codes "10." ∷ []), codes "#1:2" ∷ [])
unfolding has_prefix
extract_filters-join_example =
    extract_filters-join (codes "10.") [] (codes "#1:2" ∷ []) ((refl, (refl, (refl, tt))), tt)
      ((refl, (refl, (refl, (refl, tt)))), tt) (refl, tt) (refl, tt)
