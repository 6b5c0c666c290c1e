-- ===== src/Http/Query/Tokens.antt =====
-- The query of the search and the filters in it.
use alice_lg.Common.{◌≡◌, refl, ap, ◌∙◌, true, false, List, [], ◌∷◌, ◌++◌, All, All-append}
use alice_lg.Common.Texts.{Text, join}
use alice_lg.Common.Texts.Splitting.{Free, split-join}
use alice_lg.Http.Query.{is_filter, separate, extract_filters}

separate-filters : (fs : List Text) → All (λ t. is_filter t ≡ true) fs → separate fs ≡ ([], fs)
unfolding separate
separate-filters [] hs = refl
separate-filters (f ∷ fs) hs = rw (hs.0, separate-filters fs hs.1) refl

separate-append :
    (ws fs : List Text)
    → All (λ t. is_filter t ≡ false) ws
    → All (λ t. is_filter t ≡ true) fs
    → separate (ws ++ fs) ≡ (ws, fs)
unfolding separate
separate-append [] fs plain marked = separate-filters fs marked
separate-append (w ∷ ws) fs plain marked = rw (plain.0, separate-append ws fs plain.1 marked) refl

-- A query of at least one word, none of them with # in front, followed by filters that have one,
-- all without a space and joined by single spaces, is taken apart again into the words and filters.
pub extract_filters-join :
    (w : Text) (ws fs : List Text)
    → All (Free b' ') (w ∷ ws)
    → All (Free b' ') fs
    → All (λ t. is_filter t ≡ false) (w ∷ ws)
    → All (λ t. is_filter t ≡ true) fs
    → extract_filters (join b' ' ((w ∷ ws) ++ fs)) ≡ (join b' ' (w ∷ ws), fs)
unfolding extract_filters
extract_filters-join w ws fs whole whole_filters plain marked =
    ap (λ tokens. let (query, filters) = separate tokens in (join b' ' query, filters))
      (split-join b' ' w (ws ++ fs) (All-append (Free b' ') (w ∷ ws) fs whole whole_filters))
    ∙ ap (λ parts. (join b' ' parts.0, parts.1)) (separate-append (w ∷ ws) fs plain marked)
