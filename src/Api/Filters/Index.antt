-- ===== src/Api/Filters/Index.antt =====
-- The index of a group: the position of each filter under the text of its value.
use alice_lg.Common.{
  ℕ, zero, suc, ◌<◌, ◌≡◌, refl, ◌↔◌, inl, inr, Option, none, some, List, [], ◌∷◌, ◌++◌, length,
  get_elem?, nat_beq, nat_eq, list_eq, list_beq_iff, arith, if◌then◌else◌, Option-cases, Bool-cases,
  length-append,
}
use alice_lg.Common.Assoc.{get, put, get-put}
use alice_lg.Common.Texts.{Text}
use alice_lg.Api.Filters.Value.{Filter, value_string}
use alice_lg.Api.Filters.Group.{Group, increment_at, add_filter, get_filter_by_value}

-- The text of the value of the filter at a position.
abbrev pub ref_at : List Filter → ℕ → Option Text
ref_at [] i = none
ref_at (f ∷ fs) zero = value_string f.value
ref_at (f ∷ fs) (suc i) = ref_at fs i

-- The index has a position under a text exactly if the filter there has that text; and every
-- filter has a text.
pub record IsIndexed (g : Group) : Type 0 where
  pub indexed : (r : Text) (i : ℕ) → (get r g.index ≡ some i) ↔ (ref_at g.filters i ≡ some r)
  pub printable : (i : ℕ) → i < length g.filters → (r : Text) × (ref_at g.filters i ≡ some r)

-- The group after `add_filter` of a filter whose value has the text `r`.
unfoldable pub added : Group → Filter → Text → Group
added g f r = elim (get r g.index) [
  | some i ↦ record g { filters = increment_at g.filters i }
  | none ↦ record g {
    filters = g.filters ++ record f { cardinality = 1 } ∷ [];
    index = put r (length g.filters) g.index;
  }
]

ref_at-increment_at : (fs : List Filter) (i j : ℕ) → ref_at (increment_at fs i) j ≡ ref_at fs j
ref_at-increment_at [] i j = refl
ref_at-increment_at (f ∷ fs) zero zero = refl
ref_at-increment_at (f ∷ fs) zero (suc j) = refl
ref_at-increment_at (f ∷ fs) (suc i) zero = refl
ref_at-increment_at (f ∷ fs) (suc i) (suc j) = ref_at-increment_at fs i j

length-increment_at : (fs : List Filter) (i : ℕ) → length (increment_at fs i) ≡ length fs
length-increment_at [] i = refl
length-increment_at (f ∷ fs) zero = refl
length-increment_at (f ∷ fs) (suc i) = omega (arith, length-increment_at fs i)

ref_at-append :
    (fs : List Filter) (f : Filter) (j : ℕ)
    → ref_at (fs ++ f ∷ []) j
      ≡ (if nat_beq j (length fs) then value_string f.value else ref_at fs j)
ref_at-append [] f zero = refl
ref_at-append [] f (suc j) = ground arith
ref_at-append (g ∷ fs) f zero = ground arith
ref_at-append (g ∷ fs) f (suc j) = ground (arith, ref_at-append fs f j)

pub lt_of_ref_at : (fs : List Filter) (i : ℕ) (r : Text) → ref_at fs i ≡ some r → i < length fs
lt_of_ref_at [] i r h = cc
lt_of_ref_at (f ∷ fs) zero r h = omega arith
lt_of_ref_at (f ∷ fs) (suc i) r h = omega (arith, lt_of_ref_at fs i r h)

get_elem?_of_lt :
    (fs : List Filter) (i : ℕ) → i < length fs → (f : Filter) × (get_elem? fs i ≡ some f)
get_elem?_of_lt [] i h = elim h [ ]
get_elem?_of_lt (f ∷ fs) zero h = (f, refl)
get_elem?_of_lt (f ∷ fs) (suc i) h = get_elem?_of_lt fs i (omega arith)

-- On an indexed group `add_filter` does not panic.
pub add_filter-added :
    (g : Group) (f : Filter) (r : Text)
    → IsIndexed g
    → value_string f.value ≡ some r
    → add_filter g f ≡ some (added g f r)
unfolding add_filter get_filter_by_value added
add_filter-added g f r h printed = elim (Option-cases (get r g.index)) [
  | inl absent ↦ ground arith
  | inr (i, present) ↦
      let below = lt_of_ref_at g.filters i r ((h.indexed r i).0 present) in
      ground (arith, (get_elem?_of_lt g.filters i below).1)
]

module _ (g : Group) (f : Filter) (r : Text) (h : IsIndexed g)
    (printed : value_string f.value ≡ some r) where
  appended_indexed :
      (q : Text) (i : ℕ)
      → get r g.index ≡ none
      → (get q (put r (length g.filters) g.index) ≡ some i)
        ↔ (ref_at (g.filters ++ record f { cardinality = 1 } ∷ []) i ≡ some q)
  appended_indexed q i absent =
      rw (get-put, ref_at-append)
        (ground (arith, h.indexed q i, h.indexed r i, list_beq_iff r q, lt_of_ref_at g.filters i q))

  appended_printable :
      (i : ℕ)
      → i < length (g.filters ++ record f { cardinality = 1 } ∷ [])
      → (q : Text) × (ref_at (g.filters ++ record f { cardinality = 1 } ∷ []) i ≡ some q)
  appended_printable i below = rw ref_at-append (elim (Bool-cases (nat_beq i (length g.filters))) [
    | inl last ↦ (r, rw last printed)
    | inr earlier ↦
        let (q, found) =
          h.printable i
            (ground (arith, length-append g.filters (record f { cardinality = 1 } ∷ []))) in
        (q, rw earlier found)
  ])

  pub added-IsIndexed : IsIndexed (added g f r)
  unfolding added
  added-IsIndexed = elim (Option-cases (get r g.index)) [
    | inl absent ↦
        rw (absent, added)
          (record { indexed = λ q i. appended_indexed q i absent; printable = appended_printable })
    | inr (i, present) ↦
        rw (present, added)
          (record {
            indexed = λ q j. rw ref_at-increment_at (h.indexed q j);
            printable =
                λ j below. rw ref_at-increment_at (h.printable j (rw length-increment_at at below));
          })
  ]
