-- ===== src/Common/Assoc.antt =====
-- Go's maps, as lists of entries in the order of an iteration. (Go leaves the order open: a
-- theorem about a map holds for every list.)
use Prim.Native.Nat.{suc, ◌≤◌}
use mathlib.Core.Path.{◌≡◌, refl}
use mathlib.Core.List.{List, [], ◌∷◌}
use mathlib.Core.Option.{Option, none, some}
use native.Mathlib.Omega.{arith}
use mathlib.Core.Logic.{inl, inr}
use alice_lg.Common.Tests.{if◌then◌else◌, Bool-cases}
use alice_lg.Common.Equality.{Eq, beq_refl}
use alice_lg.Common.Lists.{length, All}

abbrev pub Assoc {ℓ κ} : Type ℓ → Type κ → Type (ℓ ⊔ κ)
Assoc K V = List (K × V)

module _ {ℓ κ} {K : Type ℓ} {V : Type κ} ⦃e : Eq K⦄ where
  -- m[k]
  unfoldable pub get : K → Assoc K V → Option V
  get k [] = none
  get k ((j, v) ∷ m) = if e.beq j k then some v else get k m

  -- m[k] = v
  unfoldable pub put : K → V → Assoc K V → Assoc K V
  put k v [] = (k, v) ∷ []
  put k v ((j, w) ∷ m) = if e.beq j k then (k, v) ∷ m else (j, w) ∷ put k v m

  -- delete(m, k)
  unfoldable pub delete : K → Assoc K V → Assoc K V
  delete k [] = []
  delete k ((j, v) ∷ m) = let rest = delete k m in if e.beq j k then rest else (j, v) ∷ rest

  pub get-put :
      (k j : K) (v : V) (m : Assoc K V)
      → get j (put k v m) ≡ (if e.beq k j then some v else get j m)
  unfolding get put
  get-put k j v [] = refl
  get-put k j v ((i, w) ∷ m) =
      ground (arith, e.beq_iff k j, e.beq_iff i k, e.beq_iff i j, get-put k j v m)

  pub get-delete :
      (k j : K) (m : Assoc K V) → get j (delete k m) ≡ (if e.beq k j then none else get j m)
  unfolding get delete
  get-delete k j [] = ground arith
  get-delete k j ((i, w) ∷ m) =
      ground (arith, e.beq_iff k j, e.beq_iff i k, e.beq_iff i j, get-delete k j m)

  pub get-put_self : (k : K) (v : V) (m : Assoc K V) → get k (put k v m) ≡ some v
  get-put_self k v m = rw (get-put k k v m) (rw (beq_refl k) refl)

  pub length-delete-le : (k : K) (m : Assoc K V) → length (delete k m) ≤ length m
  unfolding delete
  length-delete-le k [] = omega arith
  length-delete-le k ((j, v) ∷ m) = ground (arith, length-delete-le k m)

  -- A write of a new key adds an entry, and a write of a present key adds none.
  pub length-put :
      (k : K) (v : V) (m : Assoc K V)
      → length (put k v m) ≡ elim (get k m) [ none ↦ suc (length m) | some _ ↦ length m ]
  unfolding get put
  length-put k v [] = refl
  length-put k v ((j, w) ∷ m) = ground (arith, length-put k v m)

  pub length-delete :
      (k : K) (v : V) (m : Assoc K V) → get k m ≡ some v → suc (length (delete k m)) ≤ length m
  unfolding get delete
  length-delete k v [] h = cc
  length-delete k v ((j, w) ∷ m) h = ground (arith, length-delete k v m, length-delete-le k m)

  -- A deletion of a missing key changes nothing.
  pub delete_absent : (k : K) (m : Assoc K V) → get k m ≡ none → delete k m ≡ m
  unfolding get delete
  delete_absent k [] h = refl
  delete_absent k ((j, v) ∷ m) h = ground (arith, delete_absent k m)

module _ {ℓ κ} {K : Type ℓ} {V : Type 0} ⦃e : Eq K⦄ (P : V → Type κ) where
  -- A property of all values survives a write of a value with it, and a deletion.
  pub All-put :
      (k : K) (v : V) (m : Assoc K V)
      → P v
      → All (λ (x : K × V). P x.1) m
      → All (λ (x : K × V). P x.1) (put k v m)
  unfolding put
  All-put k v [] h hs = (h, tt)
  All-put k v ((j, w) ∷ m) h hs = elim (Bool-cases (e.beq j k)) [
    | inl same ↦ rw same (h, hs.1)
    | inr other ↦ rw other (hs.0, All-put k v m h hs.1)
  ]

  pub All-delete :
      (k : K) (m : Assoc K V)
      → All (λ (x : K × V). P x.1) m
      → All (λ (x : K × V). P x.1) (delete k m)
  unfolding delete
  All-delete k [] hs = tt
  All-delete k ((j, w) ∷ m) hs = elim (Bool-cases (e.beq j k)) [
    | inl same ↦ rw same (All-delete k m hs.1)
    | inr other ↦ rw other (hs.0, All-delete k m hs.1)
  ]
