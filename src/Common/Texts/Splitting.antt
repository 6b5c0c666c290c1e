-- ===== src/Common/Texts/Splitting.antt =====
-- The pieces of a text that was joined.
use Prim.Native.Nat.{ℕ}
use mathlib.Core.Path.{◌≡◌, refl, ap, ◌∙◌}
use mathlib.Core.Bool.{false}
use mathlib.Core.List.{List, [], ◌∷◌, ◌++◌}
use native.Mathlib.Omega.{arith}
use alice_lg.Common.Tests.{nat_beq}
use alice_lg.Common.Lists.{All}
use alice_lg.Common.Texts.{Text, split, join}

-- Text without the separator
abbrev pub Free : ℕ → Text → Type 0
Free sep = All (λ c. nat_beq c sep ≡ false)

pub split-Free : (sep : ℕ) (t : Text) → Free sep t → split sep t ≡ t ∷ []
unfolding split
split-Free sep [] free = refl
split-Free sep (c ∷ t) free = rw (free.0, split-Free sep t free.1) refl

pub split-first : (sep : ℕ) (t s : Text) → Free sep t → split sep (t ++ sep ∷ s) ≡ t ∷ split sep s
unfolding split
split-first sep [] s free = ground arith
split-first sep (c ∷ t) s free = rw (free.0, split-first sep t s free.1) refl

-- Pieces that are free of the separator, at least one, are found again.
pub split-join :
    (sep : ℕ) (t : Text) (ts : List Text)
    → All (Free sep) (t ∷ ts)
    → split sep (join sep (t ∷ ts)) ≡ t ∷ ts
unfolding join
split-join sep t [] free = split-Free sep t free.0
split-join sep t (u ∷ ts) free =
    split-first sep t (join sep (u ∷ ts)) free.0 ∙ ap (λ l. t ∷ l) (split-join sep u ts free.1)
