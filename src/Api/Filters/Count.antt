-- ===== src/Api/Filters/Count.antt =====
-- The cardinality of a filter is the number of times that its value was added.
use Prim.Native.String.{String}
use alice_lg.Common.{
  ℕ, zero, suc, ◌+◌, ◌<◌, ◌≡◌, refl, inl, inr, Option, none, some, List, [], ◌∷◌, ◌++◌, length,
  nat_beq, nat_eq, list_eq, list_beq, list_beq_iff, arith, if◌then◌else◌, Option-cases, Bool-cases,
}
use alice_lg.Common.Assoc.{get, put, get-put}
use alice_lg.Common.Texts.{Text}
use alice_lg.Api.Filters.Value.{Filter, value_string}
use alice_lg.Api.Filters.Group.{Group, increment_at, add_filters}
use alice_lg.Api.Filters.Index.{IsIndexed, added, add_filter-added, added-IsIndexed, lt_of_ref_at}

-- How often a text is in a list.
abbrev pub count : Text → List Text → ℕ
count q [] = 0
count q (r ∷ rs) = (if list_beq r q then 1 else 0) + count q rs

-- The values of the filters have these texts.
abbrev pub Printed : List Filter → List Text → Type 0
Printed [] [] = Unit
Printed (f ∷ fs) (r ∷ rs) = (value_string f.value ≡ some r) × Printed fs rs
Printed _ _ = ⊥

abbrev pub cardinality_at : List Filter → ℕ → ℕ
cardinality_at [] i = 0
cardinality_at (f ∷ fs) zero = f.cardinality
cardinality_at (f ∷ fs) (suc i) = cardinality_at fs i

abbrev pub at_position : List Filter → Option ℕ → ℕ
at_position fs none = 0
at_position fs (some i) = cardinality_at fs i

-- The cardinality of the filter with a text, 0 where there is none.
unfoldable pub cardinality_of : Group → Text → ℕ
cardinality_of g r = at_position g.filters (get r g.index)

cardinality_at-increment_at :
    (fs : List Filter) (i j : ℕ)
    → i < length fs
    → cardinality_at (increment_at fs i) j ≡ cardinality_at fs j + (if nat_beq i j then 1 else 0)
cardinality_at-increment_at [] i j h = elim h [ ]
cardinality_at-increment_at (f ∷ fs) zero zero h = ground arith
cardinality_at-increment_at (f ∷ fs) zero (suc j) h = ground arith
cardinality_at-increment_at (f ∷ fs) (suc i) zero h = ground arith
cardinality_at-increment_at (f ∷ fs) (suc i) (suc j) h =
    ground (arith, cardinality_at-increment_at fs i j (omega arith))

cardinality_at-append :
    (fs : List Filter) (f : Filter) (j : ℕ)
    → j < length fs
    → cardinality_at (fs ++ f ∷ []) j ≡ cardinality_at fs j
cardinality_at-append [] f j h = elim h [ ]
cardinality_at-append (g ∷ fs) f zero h = refl
cardinality_at-append (g ∷ fs) f (suc j) h = cardinality_at-append fs f j (omega arith)

cardinality_at-last :
    (fs : List Filter) (f : Filter) → cardinality_at (fs ++ f ∷ []) (length fs) ≡ f.cardinality
cardinality_at-last [] f = refl
cardinality_at-last (g ∷ fs) f = cardinality_at-last fs f

ref_at_unique :
    (g : Group)
    → IsIndexed g
    → (q r : Text) (i : ℕ) → get q g.index ≡ some i
    → get r g.index ≡ some i
    → q ≡ r
ref_at_unique g h q r i at_q at_r = ground (arith, h.indexed q i, h.indexed r i)

module _ (g : Group) (f : Filter) (r q : Text) (h : IsIndexed g) where
  incremented :
      (i : ℕ)
      → get r g.index ≡ some i
      → cardinality_of (record g { filters = increment_at g.filters i }) q
        ≡ cardinality_of g q + (if list_beq r q then 1 else 0)
  unfolding cardinality_of
  incremented i present = elim (Option-cases (get q g.index)) [
    | inl absent ↦ rw absent (ground (arith, list_beq_iff r q))
    | inr (j, at) ↦ rw at (
        rw
          (cardinality_at-increment_at g.filters i j
            (lt_of_ref_at g.filters i r ((h.indexed r i).0 present)))
          (ground (arith, list_beq_iff r q, h.indexed q i, h.indexed r i, h.indexed q j)))
  ]

  appended :
      get r g.index ≡ none
      → cardinality_of
          (record g {
            filters = g.filters ++ record f { cardinality = 1 } ∷ [];
            index = put r (length g.filters) g.index;
          })
          q
        ≡ cardinality_of g q + (if list_beq r q then 1 else 0)
  unfolding cardinality_of
  appended absent = rw get-put (elim (Bool-cases (list_beq r q)) [
    | inl same ↦ rw (same, cardinality_at-last) (ground (arith, list_beq_iff r q))
    | inr other ↦ rw other (elim (Option-cases (get q g.index)) [
      | inl missing ↦ rw missing (omega arith)
      | inr (j, at) ↦ rw at (
          rw
            (cardinality_at-append g.filters (record f { cardinality = 1 }) j
              (lt_of_ref_at g.filters j q ((h.indexed q j).0 at)))
            (omega arith))
    ])
  ])

  cardinality_of-added :
      cardinality_of (added g f r) q ≡ cardinality_of g q + (if list_beq r q then 1 else 0)
  unfolding added
  cardinality_of-added = elim (Option-cases (get r g.index)) [
    | inl absent ↦ rw (absent, added) (appended absent)
    | inr (i, present) ↦ rw (present, added) (incremented i present)
  ]

-- On an indexed group, filters whose values have texts are added without a panic; the group stays
-- indexed, and the cardinality under each text grows by the number of times it was added.
pub add_filters-count :
    (g : Group) (fs : List Filter) (rs : List Text)
    → IsIndexed g
    → Printed fs rs
    → (g' : Group) × (add_filters g fs ≡ some g')
      × IsIndexed g'
      × ((q : Text) → cardinality_of g' q ≡ cardinality_of g q + count q rs)
unfolding add_filters
add_filters-count g [] [] h e = (g, refl, h, λ q. omega arith)
add_filters-count g [] (r ∷ rs) h e = absurd e
add_filters-count g (f ∷ fs) [] h e = absurd e
add_filters-count g (f ∷ fs) (r ∷ rs) h (printed, others) =
    let (g', run, h', counted) =
      add_filters-count (added g f r) fs rs (added-IsIndexed g f r h printed) others in
    (
      g',
      rw (add_filter-added g f r h printed) run,
      h',
      λ q. omega (arith, counted q, cardinality_of-added g f r q h),
    )

-- A new group is indexed.
pub IsIndexed-new : (key : String) → IsIndexed (record { key = key; filters = []; index = [] })
unfolding get
IsIndexed-new key = record { indexed = λ r i. ground arith; printable = λ i h. elim h [ ] }
