-- ===== src/Pools/Lists/Sharing.antt =====
-- Equal lists of integers share one slice.
use alice_lg.Common.{
  ◌≡◌, refl, ap, sym, ◌∙◌, Option, some, List, [], ◌∷◌, list_beq, list_beq_iff, nat_eq,
  if◌then◌else◌, ◌>>=◌, arith,
}
use alice_lg.Common.Ints.{ℤ, int_eq}
use alice_lg.Pools.Node.{node, value, traverse}
use alice_lg.Pools.Node.Paths.{object_at, get_or, traverse_lem}
use alice_lg.Pools.Lists.{Slice, nil_slice, IntListPool, acquire}

-- The slice that the pool gives out for a list, if it has one already.
unfoldable pub stored : List ℤ → IntListPool → Option (Slice ℤ)
stored [] p = some (value p)
stored (id ∷ ids) p = object_at (id ∷ ids) p

value-traverse :
    (v : Slice ℤ) (id : ℤ) (tail : List ℤ) (n : IntListPool) {n' : IntListPool} {r : Slice ℤ}
    → traverse nil_slice v (id ∷ tail) n ≡ some (n', r)
    → value n' ≡ value n
unfolding traverse
value-traverse v id [] (node c w f) h = ground arith
value-traverse v id (i ∷ tail) (node c w f) h = ground arith

-- The call of `acquire` with the elements apart
abbrev acquired : Slice ℤ → List ℤ → IntListPool → Option (IntListPool × Slice ℤ)
acquired list els p = elim els [
  | [] ↦ some (p, value p)
  | id ∷ ids ↦ traverse nil_slice list (id ∷ ids) p
]

-- The pool has the slice `r` for a list, and for every other list what it had.
abbrev pub Stores : IntListPool → IntListPool → List ℤ → Slice ℤ → Type 0
Stores p' p els r = (q : List ℤ) → stored q p' ≡ (if list_beq els q then some r else stored q p)

acquired_lem :
    (list : Slice ℤ) (els : List ℤ) (p : IntListPool)
    → (p' : IntListPool) × (acquired list els p ≡ some (p', get_or (stored els p) list))
      × Stores p' p els (get_or (stored els p) list)
unfolding stored
acquired_lem list [] p = (p, refl, root)
  where
    root : Stores p p [] (value p)
    root [] = refl
    root (j ∷ t) = refl
acquired_lem list (id ∷ ids) p =
    let (p', run, extends) = traverse_lem nil_slice list id ids p in
    (p', run, others p' run extends)
  where
    others :
        (p' : IntListPool)
        → traverse nil_slice list (id ∷ ids) p ≡ some (p', get_or (object_at (id ∷ ids) p) list)
        → ((q : List ℤ)
            → object_at q p' ≡ (
                if list_beq (id ∷ ids) q
                then some (get_or (object_at (id ∷ ids) p) list)
                else object_at q p))
        → Stores p' p (id ∷ ids) (get_or (object_at (id ∷ ids) p) list)
    others p' run extends [] = ap some (value-traverse list id ids p run)
    others p' run extends (j ∷ t) = extends (j ∷ t)

-- The pool is a map from lists to slices that only grows: a call never panics, returns the slice
-- that the pool has for the list, or else the argument itself, which it then has for that list;
-- for every other list it has what it had.
pub acquire_lem :
    (list : Slice ℤ) (p : IntListPool)
    → (p' : IntListPool) × (acquire list p ≡ some (p', get_or (stored list.elements p) list))
      × Stores p' p list.elements (get_or (stored list.elements p) list)
unfolding acquire
acquire_lem list p = acquired_lem list list.elements p

-- Calls one after the other
unfoldable pub acquire_all : List (Slice ℤ) → IntListPool → Option IntListPool
unfolding acquire
acquire_all [] p = some p
acquire_all (l ∷ lists) p = do (p', _) ← acquire l p; acquire_all lists p'

acquire_all-stored :
    (lists : List (Slice ℤ)) (p : IntListPool) (els : List ℤ) (r : Slice ℤ)
    → stored els p ≡ some r
    → (p' : IntListPool) × (acquire_all lists p ≡ some p') × (stored els p' ≡ some r)
unfolding acquire_all
acquire_all-stored [] p els r h = (p, refl, h)
acquire_all-stored (l ∷ lists) p els r h =
    let (p1, run, stores) = acquire_lem l p in
    let (p', runs, kept) =
      acquire_all-stored lists p1 els r
        (stores els ∙ ground (arith, list_beq_iff l.elements els)) in
    (p', rw run runs, kept)

-- Two calls with the same elements return the same slice, whatever the pool is asked for between
-- them.
pub acquire_shares :
    (a b : Slice ℤ) (between : List (Slice ℤ)) (p : IntListPool)
    → a.elements ≡ b.elements
    → (p1 p2 p3 : IntListPool) × (r : Slice ℤ) × (acquire a p ≡ some (p1, r))
      × (acquire_all between p1 ≡ some p2)
      × (acquire b p2 ≡ some (p3, r))
acquire_shares a b between p same =
    let (p1, first, stores) = acquire_lem a p in
    let r = get_or (stored a.elements p) a in
    let (p2, runs, kept) =
      acquire_all-stored between p1 a.elements r
        (stores a.elements ∙ ground (arith, list_beq_iff a.elements a.elements)) in
    let (p3, second, _) = acquire_lem b p2 in
    (
      p1,
      p2,
      p3,
      r,
      first,
      runs,
      second
          ∙ ap (λ (o : Option (Slice ℤ)). some (p3, get_or o b))
              (ap (λ els. stored els p2) (sym same) ∙ kept),
    )
