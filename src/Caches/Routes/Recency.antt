-- ===== src/Caches/Routes/Recency.antt =====
-- The least recently used key of a map of access times.
use alice_lg.Common.{
  ◌<◌, ◌≡◌, refl, ◌≢◌, true, none, some, [], ◌∷◌, length, list_beq, list_beq_iff, nat_eq, list_eq,
  arith, Option-cases, Bool-cases, inl, inr, All, ◌⊎◌, ◌↔◌,
}
use alice_lg.Common.Assoc
use alice_lg.Common.Assoc.{
  Assoc, put, delete, get-put, get-delete, get-put_self, All-put, All-delete, delete_absent,
  length-put, length-delete, length-delete-le,
}
use alice_lg.Common.Ints.{ℤ, ltb_ℤ}
use alice_lg.Common.Texts.{Text}
use alice_lg.Caches.Routes.{lru, lru_from}

-- A key has an entry.
abbrev pub Known : {V : Type 0} → Text → Assoc Text V → Type 0
Known {V} k m = (v : V) × (Assoc.get k m ≡ some v)

Known-cons : {V : Type 0} (k j : Text) (v : V) (m : Assoc Text V) → Known k m → Known k ((j, v) ∷ m)
unfolding Assoc.get
Known-cons k j v m (w, at) = elim (Bool-cases (list_beq j k)) [
  | inl same ↦ (v, rw same refl)
  | inr other ↦ (w, rw other at)
]

Known-head : {V : Type 0} (j : Text) (v : V) (m : Assoc Text V) → Known j ((j, v) ∷ m)
unfolding Assoc.get
Known-head j v m = (v, rw ((list_beq_iff j j).1 refl) refl)

-- The loop returns its starting key or one of the map.
lru_from-Known :
    (t : ℤ) (key : Text) (m : Assoc Text ℤ) → (lru_from t key m ≡ key) ⊎ Known (lru_from t key m) m
unfolding lru_from
lru_from-Known t key [] = inl refl
lru_from-Known t key ((k, v) ∷ m) = elim (Bool-cases (ltb_ℤ v t)) [
  | inl before ↦ rw before (elim (lru_from-Known v k m) [
    | inl e ↦ inr (rw e (Known-head k v m))
    | inr known ↦ inr (Known-cons _ k v m known)
  ])
  | inr after ↦
      rw after (elim (lru_from-Known t key m) [
        | inl e ↦ inl e
        | inr known ↦ inr (Known-cons _ k v m known)
      ])
]

-- Where an access came before the clock's reading, the least recently used key has an entry.
lru-Known :
    (now v : ℤ) (k : Text) (m : Assoc Text ℤ)
    → ltb_ℤ v now ≡ true
    → Known (lru now ((k, v) ∷ m)) ((k, v) ∷ m)
unfolding lru lru_from
lru-Known now v k m before = rw before (elim (lru_from-Known v k m) [
  | inl e ↦ rw e (Known-head k v m)
  | inr known ↦ Known-cons _ k v m known
])

abbrev pub Past : ℤ → Assoc Text ℤ → Type 0
Past now = All (λ (x : Text × ℤ). ltb_ℤ x.1 now ≡ true)

pub later-Past :
    (now later : ℤ) (m : Assoc Text ℤ) → ltb_ℤ now later ≡ true → Past now m → Past later m
later-Past now later [] h hs = tt
later-Past now later ((k, v) ∷ m) h hs = (ground (arith, hs.0), later-Past now later m h hs.1)

-- The two maps have the same keys.
abbrev pub SameKeys : {A B : Type 0} → Assoc Text A → Assoc Text B → Type 0
SameKeys a b = (k : Text) → (Assoc.get k a ≡ none) ↔ (Assoc.get k b ≡ none)

head_some : {V : Type 0} (j : Text) (v : V) (m : Assoc Text V) → Assoc.get j ((j, v) ∷ m) ≢ none
unfolding Assoc.get
head_some j v m = ground (arith, (list_beq_iff j j).1 refl)

Known-transfer :
    {A B : Type 0} (a : Assoc Text A) (b : Assoc Text B) (k : Text)
    → SameKeys a b
    → Known k b
    → Known k a
Known-transfer a b k same (w, at) = elim (Option-cases (Assoc.get k a)) [
  | inl missing ↦ cc (at, (same k).0 missing)
  | inr (x, e) ↦ (x, e)
]

none_of : (k : Text) → Assoc.get {V = ℤ} k [] ≡ none
unfolding Assoc.get
none_of k = refl

-- With the same keys and an entry at all, the least recently used key has an entry.
pub evicts :
    {A : Type 0} (now : ℤ) (a : Assoc Text A) (b : Assoc Text ℤ)
    → 0 < length a
    → SameKeys a b
    → Past now b
    → Known (lru now b) a
evicts now [] b few same past = absurd (omega (arith, few))
evicts now ((j, x) ∷ a) [] few same past = absurd (head_some j x a ((same j).1 (none_of j)))
evicts now ((j, x) ∷ a) ((k, v) ∷ b) few same past =
    Known-transfer ((j, x) ∷ a) ((k, v) ∷ b) _ same (lru-Known now v k b past.0)

pub same-delete :
    {A B : Type 0} (k : Text) (a : Assoc Text A) (b : Assoc Text B)
    → SameKeys a b
    → SameKeys (delete k a) (delete k b)
same-delete k a b same j = elim (Bool-cases (list_beq k j)) [
  | inl eq ↦ rw (get-delete k j a) (rw (get-delete k j b) (rw eq ((λ _. refl), (λ _. refl))))
  | inr ne ↦ rw (get-delete k j a) (rw (get-delete k j b) (rw ne (same j)))
]

pub same-put :
    {A B : Type 0} (k : Text) (v : A) (w : B) (a : Assoc Text A) (b : Assoc Text B)
    → SameKeys a b
    → SameKeys (put k v a) (put k w b)
same-put k v w a b same j = elim (Bool-cases (list_beq k j)) [
  | inl eq ↦ rw (get-put k j v a) (rw (get-put k j w b) (rw eq ((λ e. cc (e)), (λ e. cc (e)))))
  | inr ne ↦ rw (get-put k j v a) (rw (get-put k j w b) (rw ne (same j)))
]
