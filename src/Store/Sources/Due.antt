-- ===== src/Store/Sources/Due.antt =====
-- The calls on a known source, as writes of its status.
use alice_lg.Common.{
  ◌≡◌, refl, true, false, not, none, some, nat_eq, list_eq, arith, Option-cases, inl, inr,
}
use alice_lg.Common.Assoc.{get, put, get-put_self}
use alice_lg.Common.Ints.{ℤ, ltb_ℤ}
use alice_lg.Common.Texts.{Text}
use alice_lg.Store.Sources.{
  Sources, Status, is_busy, get_status, should_refresh, lock_source, locked, refreshed, failed,
  refresh_success, refresh_error, due_at,
}

abbrev pub with_status : Sources → Text → Status → Sources
with_status s id st = record s { status = put id st s.status }

pub known_of_due :
    (s : Sources) (id : Text) (t : ℤ)
    → should_refresh s id t ≡ true
    → (st : Status) × (get id s.status ≡ some st) × (is_busy st.state ≡ false)
unfolding should_refresh get_status
known_of_due s id t due = elim (Option-cases (get id s.status)) [
  | inl missing ↦ ground (arith, due)
  | inr (st, known) ↦ (st, known, ground (arith, due, known))
]

pub lock_source_lem :
    (s : Sources) (id : Text) (t : ℤ) (st : Status)
    → get id s.status ≡ some st
    → is_busy st.state ≡ false
    → lock_source s id t ≡ (with_status s id (locked st t), none)
unfolding lock_source get_status
lock_source_lem s id t st known free = rw (lock_source, get_status, known, free) refl

pub refresh_success_lem :
    (s : Sources) (id : Text) (now later : ℤ) (st : Status)
    → get id s.status ≡ some st
    → refresh_success s id now later ≡ (with_status s id (refreshed st now later), none)
unfolding refresh_success get_status
refresh_success_lem s id now later st known = rw (refresh_success, get_status, known) refl

pub refresh_error_lem :
    (s : Sources) (id e : Text) (now later : ℤ) (st : Status)
    → get id s.status ≡ some st
    → refresh_error s id e now later ≡ with_status s id (failed st e now later)
unfolding refresh_error get_status
refresh_error_lem s id e now later st known = rw (refresh_error, get_status, known) refl

pub should_refresh_lem :
    (s : Sources) (id : Text) (t : ℤ) (st : Status)
    → is_busy st.state ≡ false
    → should_refresh (with_status s id st) id t ≡ not (ltb_ℤ t (due_at s st))
unfolding should_refresh get_status
should_refresh_lem s id t st free =
    rw (should_refresh, get_status, get-put_self id st s.status) (ground (arith, free))
