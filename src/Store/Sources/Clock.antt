-- ===== src/Store/Sources/Clock.antt =====
-- The instants that the store reports.
use alice_lg.Common.{
  ◌≡◌, true, false, some, [], ◌∷◌, list_beq, nat_eq, list_eq, arith, if◌then◌else◌, Bool-cases, inl,
  inr,
}
use alice_lg.Common.Assoc.{Assoc, get}
use alice_lg.Common.Ints.{ℤ, pos, ◌+ℤ◌, ltb_ℤ, leb_ℤ}
use alice_lg.Common.Texts.{Text}
use alice_lg.Store.Sources.{Sources, Status, get_status, earliest, cached_at, latest, next_refresh}

leb_refl : (a : ℤ) → leb_ℤ a a ≡ true
leb_refl a = ground arith

leb_trans : (a b c : ℤ) → leb_ℤ a b ≡ true → leb_ℤ b c ≡ true → leb_ℤ a c ≡ true
leb_trans a b c h k = ground arith

leb_of_not_ltb : (a b : ℤ) → ltb_ℤ b a ≡ false → leb_ℤ a b ≡ true
leb_of_not_ltb a b h = ground arith

leb_of_ltb : (a b : ℤ) → ltb_ℤ a b ≡ true → leb_ℤ a b ≡ true
leb_of_ltb a b h = ground arith

-- The step of each of the two loops
smaller : ℤ → ℤ → ℤ
smaller a t = if ltb_ℤ a t then a else t

smaller-le : (a t : ℤ) → (leb_ℤ (smaller a t) a ≡ true) × (leb_ℤ (smaller a t) t ≡ true)
unfolding smaller
smaller-le a t = elim (Bool-cases (ltb_ℤ a t)) [
  | inl less ↦ rw less (leb_refl a, leb_of_ltb a t less)
  | inr more ↦ rw more (leb_of_not_ltb t a more, leb_refl t)
]

earliest-le : (t : ℤ) (m : Assoc Text Status) → leb_ℤ (earliest t m) t ≡ true
unfolding earliest smaller
earliest-le t [] = leb_refl t
earliest-le t ((k, st) ∷ m) =
    leb_trans _ (smaller st.last_refresh t) t (earliest-le (smaller st.last_refresh t) m)
      (smaller-le st.last_refresh t).1

earliest-le_entry :
    (t : ℤ) (m : Assoc Text Status) (id : Text) (st : Status)
    → get id m ≡ some st
    → leb_ℤ (earliest t m) st.last_refresh ≡ true
unfolding earliest get smaller
earliest-le_entry t [] id st h = cc
earliest-le_entry t ((k, st') ∷ m) id st h = elim (Bool-cases (list_beq k id)) [
  | inl same ↦
      let e : st' ≡ st = ground arith in
      rw (← e) (
        leb_trans _ (smaller st'.last_refresh t) _ (earliest-le (smaller st'.last_refresh t) m)
          (smaller-le st'.last_refresh t).0)
  | inr other ↦ earliest-le_entry (smaller st'.last_refresh t) m id st (ground arith)
]

-- The reported age of the data is never later than the clock or than the last refresh of any
-- source.
pub cached_at_lower :
    (s : Sources) (now : ℤ) (id : Text) (st : Status)
    → get_status s id ≡ some st
    → (leb_ℤ (cached_at s now) now ≡ true) × (leb_ℤ (cached_at s now) st.last_refresh ≡ true)
unfolding cached_at get_status
cached_at_lower s now id st h = (earliest-le now s.status, earliest-le_entry now s.status id st h)

larger : ℤ → ℤ → ℤ
larger a t = if ltb_ℤ t a then a else t

le-larger : (a t : ℤ) → (leb_ℤ a (larger a t) ≡ true) × (leb_ℤ t (larger a t) ≡ true)
unfolding larger
le-larger a t = elim (Bool-cases (ltb_ℤ t a)) [
  | inl less ↦ rw less (leb_refl a, leb_of_ltb t a less)
  | inr more ↦ rw more (leb_of_not_ltb a t more, leb_refl t)
]

le-latest : (i t : ℤ) (m : Assoc Text Status) → leb_ℤ t (latest i t m) ≡ true
unfolding latest larger
le-latest i t [] = leb_refl t
le-latest i t ((k, st) ∷ m) =
    leb_trans t (larger (st.last_refresh +ℤ i) t) _ (le-larger (st.last_refresh +ℤ i) t).1
      (le-latest i (larger (st.last_refresh +ℤ i) t) m)

entry-le-latest :
    (i t : ℤ) (m : Assoc Text Status) (id : Text) (st : Status)
    → get id m ≡ some st
    → leb_ℤ (st.last_refresh +ℤ i) (latest i t m) ≡ true
unfolding latest get larger
entry-le-latest i t [] id st h = cc
entry-le-latest i t ((k, st') ∷ m) id st h = elim (Bool-cases (list_beq k id)) [
  | inl same ↦
      let e : st' ≡ st = ground arith in
      rw (← e) (
        leb_trans _ (larger (st'.last_refresh +ℤ i) t) _ (le-larger (st'.last_refresh +ℤ i) t).0
          (le-latest i (larger (st'.last_refresh +ℤ i) t) m))
  | inr other ↦ entry-le-latest i (larger (st'.last_refresh +ℤ i) t) m id st (ground arith)
]

-- The reported time to live is never earlier than the regular next refresh of any source.
pub next_refresh_upper :
    (s : Sources) (id : Text) (st : Status)
    → get_status s id ≡ some st
    → leb_ℤ (st.last_refresh +ℤ s.refresh_interval) (next_refresh s) ≡ true
unfolding next_refresh get_status
next_refresh_upper s id st h = entry-le-latest s.refresh_interval (pos 0) s.status id st h
