-- ===== src/Store/Sources.antt =====
-- pkg/store/sources_store.go: the refresh state of each source. The clock is an argument of each
-- call that reads it; an instant is a number of nanoseconds since Go's zero time. The mutex makes
-- each call one step. `sort.Sort` is an insertion sort here; the order that Go gives to equal start
-- times is not specified.
pub mod Exclusion
pub mod Schedule
pub mod Clock
pub mod Due
use alice_lg.Common.{
  ℕ, ◌+◌, ◌-◌, ◌^◌, Bool, true, false, Option, none, some, List, [], ◌∷◌, length, nat_eq, list_eq,
  if◌then◌else◌, take, map,
}
use alice_lg.Common.Assoc.{Assoc, get, put}
use alice_lg.Common.Ints.{ℤ, pos, negsuc, pos_part, neg_part, sub_ℕ, ◌+ℤ◌, ltb_ℤ, leb_ℤ}
use alice_lg.Common.Texts.{Text}

-- State
pub data State : Type 0 where
  init ready busy error : State

-- Status; the error of the last refresh is kept as its text.
pub record Status : Type 0 where
  pub refresh_interval : ℤ
  pub last_refresh : ℤ
  pub last_refresh_duration : ℤ
  pub last_error : Option Text
  pub state : State
  pub initialized : Bool
  pub source_id : Text
  pub last_refresh_start : ℤ

-- What the store reads of config.SourceConfig
pub record SourceConfig : Type 0 where
  pub id : Text
  pub name : Text

-- SourcesStore
pub record Sources : Type 0 where
  pub refresh_interval : ℤ
  pub refresh_parallelism : ℤ
  pub status : Assoc Text Status
  pub sources : Assoc Text SourceConfig

-- The errors of pkg/sources
pub data Error : Type 0 where
  source_not_found source_busy : Error

abbrev pub new_status : ℤ → Text → Status
new_status interval id = record {
  refresh_interval = interval;
  last_refresh = pos 0;
  last_refresh_duration = pos 0;
  last_error = none;
  state = init;
  initialized = false;
  source_id = id;
  last_refresh_start = pos 0;
}

-- NewSourcesStore, one configured source after the other
unfoldable pub add_sources : List SourceConfig → Sources → Sources
unfolding put
add_sources [] s = s
add_sources (src ∷ srcs) s = add_sources srcs (record s {
  status = put src.id (new_status s.refresh_interval src.id) s.status;
  sources = put src.id src s.sources;
})

unfoldable pub new_sources_store : List SourceConfig → ℤ → ℤ → Sources
unfolding add_sources
new_sources_store cfg interval parallelism = add_sources cfg (record {
  refresh_interval = interval;
  refresh_parallelism = parallelism;
  status = [];
  sources = [];
})

-- getStatus
unfoldable pub get_status : Sources → Text → Option Status
unfolding get
get_status s id = get id s.status

-- IsInitialized; `none` is ErrSourceNotFound.
unfoldable pub is_initialized : Sources → Text → Option Bool
unfolding get_status
is_initialized s id = elim (get_status s id) [ none ↦ none | some st ↦ some st.initialized ]

-- The loop of `NextRefresh`
unfoldable pub latest : ℤ → ℤ → Assoc Text Status → ℤ
unfolding ◌+ℤ◌
latest interval t [] = t
latest interval t ((_, st) ∷ m) =
    let next = st.last_refresh +ℤ interval in latest interval (if ltb_ℤ t next then next else t) m

-- NextRefresh
unfoldable pub next_refresh : Sources → ℤ
unfolding latest
next_refresh s = latest s.refresh_interval (pos 0) s.status

abbrev pub ten_seconds : ℤ
ten_seconds = pos 10000000000

-- The instant that `ShouldRefresh` compares with the clock
abbrev pub due_at : Sources → Status → ℤ
due_at s st = elim st.state [
  | error ↦ st.last_refresh +ℤ ten_seconds
  | _ ↦ st.last_refresh +ℤ s.refresh_interval
]

abbrev pub is_busy : State → Bool
is_busy busy = true
is_busy _ = false

-- ShouldRefresh
unfoldable pub should_refresh : Sources → Text → ℤ → Bool
unfolding get_status ◌+ℤ◌
should_refresh s id now = elim (get_status s id) [
  | none ↦ false
  | some st ↦ if is_busy st.state then false else if ltb_ℤ now (due_at s st) then false else true
]

-- The loop of `CachedAt`
unfoldable pub earliest : ℤ → Assoc Text Status → ℤ
earliest t [] = t
earliest t ((_, st) ∷ m) = earliest (if ltb_ℤ st.last_refresh t then st.last_refresh else t) m

-- CachedAt
unfoldable pub cached_at : Sources → ℤ → ℤ
unfolding earliest
cached_at s now = earliest now s.status

-- The loop of `GetSourceIDsForRefresh` that collects the statuses and counts the locked ones
unfoldable pub collect : Assoc Text Status → List Status × ℕ
collect [] = ([], 0)
collect ((_, st) ∷ m) =
    let (statuses, locked) = collect m in
    (st ∷ statuses, if is_busy st.state then locked + 1 else locked)

-- SourceStatusList.Less
unfoldable pub less : Status → Status → Bool
less a b = ltb_ℤ a.last_refresh_start b.last_refresh_start

unfoldable pub insert_status : Status → List Status → List Status
unfolding less
insert_status a [] = a ∷ []
insert_status a (b ∷ l) = let rest = insert_status a l in if less b a then b ∷ rest else a ∷ b ∷ l

-- sort.Sort on a SourceStatusList
unfoldable pub sort_status : List Status → List Status
unfolding insert_status
sort_status [] = []
sort_status (a ∷ l) = insert_status a (sort_status l)

-- max(parallelism - locked, 0)
abbrev pub slots_left : ℤ → ℕ → ℕ
slots_left parallelism locked = pos_part parallelism - locked

-- GetSourceIDsForRefresh
unfoldable pub get_source_ids_for_refresh : Sources → List Text
unfolding collect sort_status
get_source_ids_for_refresh s =
    let (statuses, locked) = collect s.status in
    map (λ (st : Status). st.source_id)
      (take (slots_left s.refresh_parallelism locked) (sort_status statuses))

-- The writes to the status of a source that is locked
abbrev pub locked : Status → ℤ → Status
locked st now = record st { state = busy; last_refresh_start = now }

-- LockSource
unfoldable pub lock_source : Sources → Text → ℤ → Sources × Option Error
unfolding get_status put
lock_source s id now = elim (get_status s id) [
  | none ↦ (s, some source_not_found)
  | some st ↦
      if is_busy st.state
      then (s, some source_busy)
      else (record s { status = put id (locked st now) s.status }, none)
]

-- time.Since: a difference outside of the range of a Duration is cut off.
unfoldable pub since : ℤ → ℤ → ℤ
since now start =
    let d = sub_ℕ (pos_part now + neg_part start) (neg_part now + pos_part start) in
    if ltb_ℤ (pos (2 ^ 63 - 1)) d
    then pos (2 ^ 63 - 1)
    else if ltb_ℤ d (negsuc (2 ^ 63 - 1))
    then negsuc (2 ^ 63 - 1)
    else d

-- The writes to the status of a source that is refreshed, and of one whose refresh failed
abbrev pub refreshed : Status → ℤ → ℤ → Status
refreshed st now later = record st {
  state = ready;
  last_refresh = now;
  last_refresh_duration = since later st.last_refresh_start;
  last_error = none;
  initialized = true;
}

abbrev pub failed : Status → Text → ℤ → ℤ → Status
failed st source_error now later = record st {
  state = error;
  last_refresh = now;
  last_refresh_duration = since later st.last_refresh_start;
  last_error = some source_error;
}

-- RefreshSuccess, with the clock at its two readings
unfoldable pub refresh_success : Sources → Text → ℤ → ℤ → Sources × Option Error
unfolding get_status put since
refresh_success s id now later = elim (get_status s id) [
  | none ↦ (s, some source_not_found)
  | some st ↦ (record s { status = put id (refreshed st now later) s.status }, none)
]

-- RefreshError, with the clock at its two readings; an unknown source is logged.
unfoldable pub refresh_error : Sources → Text → Text → ℤ → ℤ → Sources
unfolding get_status put since
refresh_error s id source_error now later = elim (get_status s id) [
  | none ↦ s
  | some st ↦ record s { status = put id (failed st source_error now later) s.status }
]
