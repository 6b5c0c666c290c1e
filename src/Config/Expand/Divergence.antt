-- ===== src/Config/Expand/Divergence.antt =====
-- When the expansion does not end.
use alice_lg.Common.{ℕ, zero, suc, ◌+◌, ◌≡◌, refl, none, some, List, [], ◌∷◌, length}
use alice_lg.Common.Texts.{Text}
use alice_lg.Config.Expand.{
  ExpandMap, preprocess, find_placeholders, expanded, collect, apply_substitutions, expand_all,
  expand_found, expand,
}

-- A text that preprocessing leaves as it is, and that has placeholders but no substitution for any
-- of them, and no error either (each has another opening brace inside), is expanded into itself:
-- Expand calls itself for ever.
pub expand_diverges :
    (e : ExpandMap) (s p : Text) (placeholders : List Text)
    → preprocess s ≡ s
    → find_placeholders (length s + 1) s ≡ some (p ∷ placeholders)
    → collect e s (p ∷ placeholders) [] ≡ expanded []
    → (fuel : ℕ) → expand fuel e s ≡ none
unfolding expand expand_found expand_all apply_substitutions
expand_diverges e s p placeholders same found stuck zero = refl
expand_diverges e s p placeholders same found stuck (suc fuel) =
    rw (same, found)
      (rw (expand_found, stuck)
        (rw (expand_diverges e s p placeholders same found stuck fuel) refl))
