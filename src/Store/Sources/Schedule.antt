-- ===== src/Store/Sources/Schedule.antt =====
-- Which sources `GetSourceIDsForRefresh` hands out.
use alice_lg.Common.{
  ℕ, suc, ◌+◌, ◌-◌, ◌≡◌, refl, ap, ◌∙◌, true, false, List, [], ◌∷◌, length, map, take, arith,
  if◌then◌else◌, length-take, length-map, Bool-cases, inl, inr,
}
use Prim.Native.Nat.{min}
use mathlib.Core.List.{Perm}
use mathlib.Core.List.Perm
use alice_lg.Common.Assoc.{Assoc}
use alice_lg.Common.Ints.{pos_part}
use alice_lg.Common.Texts.{Text}
use alice_lg.Store.Sources.{
  Sources, Status, is_busy, collect, less, insert_status, sort_status, get_source_ids_for_refresh,
}

-- The number of sources that are busy
abbrev pub busy_count : Assoc Text Status → ℕ
busy_count [] = 0
busy_count ((_, st) ∷ m) = (if is_busy st.state then 1 else 0) + busy_count m

-- No later element is less than an earlier neighbour.
abbrev pub IsSorted : List Status → Type 0
IsSorted [] = Unit
IsSorted (a ∷ []) = Unit
IsSorted (a ∷ b ∷ l) = (less b a ≡ false) × IsSorted (b ∷ l)

less_asym : (a b : Status) → less a b ≡ true → less b a ≡ false
unfolding less
less_asym a b h = ground arith

insert_status-perm : (a : Status) (l : List Status) → Perm (insert_status a l) (a ∷ l)
unfolding insert_status
insert_status-perm a [] = Perm.refl (a ∷ [])
insert_status-perm a (b ∷ l) = elim (Bool-cases (less b a)) [
  | inl before ↦ rw before (Perm.trans (Perm.cons b (insert_status-perm a l)) (Perm.swap a b l))
  | inr after ↦ rw after (Perm.refl (a ∷ b ∷ l))
]

sort_status-perm : (l : List Status) → Perm (sort_status l) l
unfolding sort_status
sort_status-perm [] = Perm.refl []
sort_status-perm (a ∷ l) =
    Perm.trans (insert_status-perm a (sort_status l)) (Perm.cons a (sort_status-perm l))

insert_status-IsSorted : (a : Status) (l : List Status) → IsSorted l → IsSorted (insert_status a l)
unfolding insert_status
insert_status-IsSorted a [] h = tt
insert_status-IsSorted a (b ∷ []) h = ground (arith, less_asym b a)
insert_status-IsSorted a (b ∷ c ∷ l) (h, hs) =
    ground (arith, less_asym b a, less_asym c a, insert_status-IsSorted a (c ∷ l) hs)

sort_status-IsSorted : (l : List Status) → IsSorted (sort_status l)
unfolding sort_status
sort_status-IsSorted [] = tt
sort_status-IsSorted (a ∷ l) = insert_status-IsSorted a (sort_status l) (sort_status-IsSorted l)

length-insert_status : (a : Status) (l : List Status) → length (insert_status a l) ≡ suc (length l)
unfolding insert_status
length-insert_status a [] = refl
length-insert_status a (b ∷ l) = ground (arith, length-insert_status a l)

length-sort_status : (l : List Status) → length (sort_status l) ≡ length l
unfolding sort_status
length-sort_status [] = refl
length-sort_status (a ∷ l) =
    omega (arith, length-insert_status a (sort_status l), length-sort_status l)

-- The statuses of all sources
abbrev pub statuses : Assoc Text Status → List Status
statuses = map (λ (e : Text × Status). e.1)

collect_lem : (m : Assoc Text Status) → collect m ≡ (statuses m, busy_count m)
unfolding collect
collect_lem [] = refl
collect_lem ((k, st) ∷ m) = rw (collect_lem m) (ground arith)

abbrev pub source_ids : List Status → List Text
source_ids = map (λ (st : Status). st.source_id)

-- The sources handed out are the least recently started ones, in that order: a first part of a
-- sorted permutation of all sources. With the busy ones they are at most as many as the
-- parallelism allows, and as many as it leaves room for if there are enough sources. (Busy sources
-- are among those handed out.)
pub refresh_order :
    (s : Sources)
    → (sorted : List Status) × Perm sorted (statuses s.status)
      × IsSorted sorted
      × (get_source_ids_for_refresh s
          ≡ source_ids (take (pos_part s.refresh_parallelism - busy_count s.status) sorted))
      × (length (get_source_ids_for_refresh s)
          ≡ min (pos_part s.refresh_parallelism - busy_count s.status) (length s.status))
unfolding get_source_ids_for_refresh
refresh_order s = (
  sort_status (statuses s.status),
  sort_status-perm (statuses s.status),
  sort_status-IsSorted (statuses s.status),
  rw collect_lem refl,
  rw collect_lem (
      length-map (λ (st : Status). st.source_id) _
      ∙ length-take _ (sort_status (statuses s.status))
      ∙ ap (min (pos_part s.refresh_parallelism - busy_count s.status)) (
          length-sort_status (statuses s.status)
          ∙ length-map (λ (e : Text × Status). e.1) s.status)),
)
