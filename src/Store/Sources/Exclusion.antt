-- ===== src/Store/Sources/Exclusion.antt =====
-- Refreshes of one source exclude one another, whatever the other goroutines do.
use alice_lg.Common.{
  ◌≡◌, refl, ap, ◌∙◌, inl, inr, Bool, true, false, ◌||◌, none, some, List, [], ◌∷◌, list_beq,
  list_beq_iff, nat_eq, list_eq, arith, Option-cases, All, any,
}
use alice_lg.Common.Assoc.{get, get-put}
use alice_lg.Common.Ints.{ℤ}
use alice_lg.Common.Texts.{Text}
use alice_lg.Store.Sources.{
  Sources, source_busy, is_busy, get_status, is_initialized, lock_source, refresh_success,
  refresh_error, locked, refreshed, failed,
}

-- The calls that change a status, with the readings of the clock.
pub data Event : Type 0 where
  lock : Text → ℤ → Event
  success : Text → ℤ → ℤ → Event
  failure : Text → Text → ℤ → ℤ → Event

unfoldable pub step : Sources → Event → Sources
unfolding lock_source refresh_success refresh_error
step s (lock id now) = (lock_source s id now).0
step s (success id now later) = (refresh_success s id now later).0
step s (failure id e now later) = refresh_error s id e now later

unfoldable pub run : Sources → List Event → Sources
unfolding step
run s [] = s
run s (e ∷ es) = run (step s e) es

-- Whether an event ends a refresh of the source
abbrev pub releases : Text → Event → Bool
releases id (lock j now) = false
releases id (success j now later) = list_beq j id
releases id (failure j e now later) = list_beq j id

-- Whether an event is a successful refresh of the source
abbrev pub succeeds : Text → Event → Bool
succeeds id (success j now later) = list_beq j id
succeeds id _ = false

abbrev pub NoRelease : Text → List Event → Type 0
NoRelease id = All (λ e. releases id e ≡ false)

-- Whether a source is known and busy.
abbrev pub busy_at : Sources → Text → Bool
busy_at s id = elim (get_status s id) [ none ↦ false | some st ↦ is_busy st.state ]

-- A lock that is granted leaves the source busy, and it was known and not busy before.
lock_granted :
    (s : Sources) (id : Text) (now : ℤ)
    → (lock_source s id now).1 ≡ none
    → (busy_at (lock_source s id now).0 id ≡ true) × (busy_at s id ≡ false)
unfolding lock_source get_status
lock_granted s id now ok = elim (Option-cases (get id s.status)) [
  | inl missing ↦ ground arith
  | inr (st, known) ↦ ground (arith, get-put id id (locked st now) s.status, list_beq_iff id id)
]

lock_refused :
    (s : Sources) (id : Text) (now : ℤ)
    → busy_at s id ≡ true
    → (lock_source s id now).1 ≡ some source_busy
unfolding lock_source get_status
lock_refused s id now h = ground arith

busy_at-step :
    (s : Sources) (id : Text) (e : Event)
    → releases id e ≡ false
    → busy_at s id ≡ true
    → busy_at (step s e) id ≡ true
unfolding step lock_source refresh_success refresh_error get_status
busy_at-step s id (lock j now) h b = elim (Option-cases (get j s.status)) [
  | inl missing ↦ ground arith
  | inr (st, known) ↦ ground (arith, get-put j id (locked st now) s.status, list_beq_iff j id)
]
busy_at-step s id (success j now later) h b = elim (Option-cases (get j s.status)) [
  | inl missing ↦ ground arith
  | inr (st, known) ↦
      ground (arith, get-put j id (refreshed st now later) s.status, list_beq_iff j id)
]
busy_at-step s id (failure j e now later) h b = elim (Option-cases (get j s.status)) [
  | inl missing ↦ ground arith
  | inr (st, known) ↦
      ground (arith, get-put j id (failed st e now later) s.status, list_beq_iff j id)
]

busy_at-run :
    (s : Sources) (id : Text) (es : List Event)
    → NoRelease id es
    → busy_at s id ≡ true
    → busy_at (run s es) id ≡ true
unfolding run
busy_at-run s id [] h b = b
busy_at-run s id (e ∷ es) (h, hs) b = busy_at-run (step s e) id es hs (busy_at-step s id e h b)

-- After a granted lock of a source, a further lock of it is refused as busy, whatever calls for
-- this and other sources come between, so long as none of them reports the end of its refresh.
pub lock_exclusive :
    (s : Sources) (id : Text) (now later : ℤ) (es : List Event)
    → (lock_source s id now).1 ≡ none
    → NoRelease id es
    → (lock_source (run (lock_source s id now).0 es) id later).1 ≡ some source_busy
lock_exclusive s id now later es granted quiet =
    lock_refused _ id later
      (busy_at-run (lock_source s id now).0 id es quiet (lock_granted s id now granted).0)

-- An event changes whether a known source has had data exactly by a success of that source.
initialized-step :
    (s : Sources) (id : Text) (e : Event) {was : Bool}
    → is_initialized s id ≡ some was
    → is_initialized (step s e) id ≡ some (was || succeeds id e)
unfolding is_initialized step lock_source refresh_success refresh_error get_status
initialized-step s id (lock j now) at = elim (Option-cases (get j s.status)) [
  | inl missing ↦ ground arith
  | inr (st', known) ↦ ground (arith, get-put j id (locked st' now) s.status, list_beq_iff j id)
]
initialized-step s id (success j now later) at = elim (Option-cases (get j s.status)) [
  | inl missing ↦ ground (arith, list_beq_iff j id)
  | inr (st', known) ↦
      ground (arith, get-put j id (refreshed st' now later) s.status, list_beq_iff j id)
]
initialized-step s id (failure j e now later) at = elim (Option-cases (get j s.status)) [
  | inl missing ↦ ground arith
  | inr (st', known) ↦
      ground (arith, get-put j id (failed st' e now later) s.status, list_beq_iff j id)
]

or_assoc : (a b c : Bool) → ((a || b) || c) ≡ (a || (b || c))
or_assoc true b c = refl
or_assoc false b c = refl

-- A known source stays known; and it counts as initialized after any calls exactly if it did so
-- before or one of the calls reported a successful refresh of it.
pub initialized_exact :
    (s : Sources) (id : Text) (es : List Event) {was : Bool}
    → is_initialized s id ≡ some was
    → is_initialized (run s es) id ≡ some (was || any (succeeds id) es)
unfolding run is_initialized any
initialized_exact s id [] h = ground arith
initialized_exact s id (e ∷ es) {was} h =
    initialized_exact (step s e) id es (initialized-step s id e h)
    ∙ ap some (or_assoc was (succeeds id e) (any (succeeds id) es))
