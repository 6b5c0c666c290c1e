-- ===== src/Store/Routes/Refresh.antt =====
-- What a refresh of the routes of a source leaves behind.
use alice_lg.Common.{
  ◌≡◌, refl, sym, ap, Bool, true, false, not, Option, none, some, List, nat_eq, list_eq,
}
use mathlib.Core.Path.{subst}
use alice_lg.Common.Assoc.{get, get-put_self}
use alice_lg.Common.Ints.{ℤ, ◌+ℤ◌, ltb_ℤ}
use alice_lg.Common.Texts.{Text}
use alice_lg.Api.Route.{RoutesResponse}
use alice_lg.Store.Sources.{
  Sources, SourceConfig, Status, Error, should_refresh, locked, refreshed, failed, ten_seconds,
}
use alice_lg.Store.Sources.Due.{
  with_status, known_of_due, lock_source_lem, refresh_success_lem, refresh_error_lem,
  should_refresh_lem,
}
use alice_lg.Store.Memory.Routes.{RoutesBackend, set_routes}
use alice_lg.Store.Memory.Neighbors.{NeighborIndex}
use alice_lg.Store.Neighbors.{
  NeighborsStore, Read, value, source_not_initialized, not_found, failed as read_failed, panicked,
  neighbors_map_at,
}
use alice_lg.Store.Routes.Prepared.{Replaced, prepare_routes-Replaced}
use alice_lg.Store.Routes.{
  RoutesStore, Poll, Awaited, ready_to_go, gave_up, waiting, await_neighbor_store, Dump, dumped,
  dump_fails, dump_panics, prepare_routes, store_routes, updated, Messages, update_with,
  update_source, report, conclude, safe_update_source,
}

-- What a refresh has to store: the routes and the neighbors, none if it fails
abbrev pub Outcome : Type 0
Outcome = Option (RoutesResponse × NeighborIndex)

abbrev pub of_read : RoutesResponse → Read NeighborIndex → Outcome
of_read res (value index) = some (res, index)
of_read res _ = none

abbrev pub of_dump : Dump → Read NeighborIndex → Outcome
of_dump (dumped res) r = of_read res r
of_dump _ r = none

abbrev pub of_wait : Awaited → Dump → Read NeighborIndex → Outcome
of_wait ready_to_go dump r = of_dump dump r
of_wait _ dump r = none

abbrev pub is_waiting : Awaited → Bool
is_waiting waiting = true
is_waiting _ = false

-- The delay until the next refresh
abbrev pub pause : ℤ → Outcome → ℤ
pause interval (some _) = interval
pause interval none = ten_seconds

-- The backend after a refresh
abbrev pub kept : RoutesStore → SourceConfig → Outcome → RoutesBackend
kept s src none = s.backend
kept s src (some x) = set_routes s.backend src.id (prepare_routes s src x.0 x.1).1

-- A refresh of a source that ends
abbrev Finished : RoutesStore → SourceConfig → RoutesStore → Outcome → ℤ → ℤ → Type 0
Finished s src after o now t =
    (should_refresh after.sources src.id t
      ≡ not (ltb_ℤ t (now +ℤ pause s.sources.refresh_interval o)))
    × (after.backend ≡ kept s src o)

module _ (texts : Messages) (s : RoutesStore) (src : SourceConfig) (now later t : ℤ) (st : Status)
    (known : get src.id s.sources.status ≡ some st) where
  reported : (e : Text) → Finished s src (report s src.id e now later) none now t
  unfolding report
  reported e =
      rw (refresh_error_lem s.sources src.id e now later st known)
        (should_refresh_lem s.sources src.id t (failed st e now later) refl, refl)

  stored : (res : RoutesResponse) (index : NeighborIndex) (sources : Sources) → RoutesStore
  stored res index sources = record s {
    server_ids = (prepare_routes s src res index).0;
    backend = set_routes s.backend src.id (prepare_routes s src res index).1;
    sources = sources;
  }

  concluded :
      (res : RoutesResponse) (index : NeighborIndex)
      → conclude texts s src.id
          (let (u, err) = store_routes s src res index now later in updated u err)
          now
          later
        ≡ stored res index (with_status s.sources src.id (refreshed st now later))
  unfolding store_routes stored conclude
  concluded res index =
      ap
        (λ (r : Sources × Option Error).
          conclude texts s src.id (updated (stored res index r.0) r.1) now later)
        (refresh_success_lem s.sources src.id now later st known)

  success :
      (res : RoutesResponse) (index : NeighborIndex)
      → Finished s src
          (conclude texts s src.id
            (let (u, err) = store_routes s src res index now later in updated u err)
            now
            later)
          (some (res, index))
          now
          t
  unfolding stored
  success res index =
      rw (concluded res index)
        (should_refresh_lem s.sources src.id t (refreshed st now later) refl, refl)

  with_read :
      (dump : Dump) (neighbors : NeighborsStore) (r : Read NeighborIndex)
      → neighbors_map_at neighbors src.id ≡ r
      → Finished s src
          (conclude texts s src.id (update_with texts s src dump neighbors now later) now later)
          (of_dump dump r)
          now
          t
  unfolding update_with conclude
  with_read (dump_fails e) neighbors r at = reported e
  with_read (dump_panics e) neighbors r at = reported e
  with_read (dumped res) neighbors source_not_initialized at = rw (update_with, at) (reported _)
  with_read (dumped res) neighbors not_found at = rw (update_with, at) (reported _)
  with_read (dumped res) neighbors (read_failed e) at = rw (update_with, at) (reported _)
  with_read (dumped res) neighbors (panicked e) at = rw (update_with, at) (reported _)
  with_read (dumped res) neighbors (value index) at = rw (update_with, at) (success res index)

  with_wait :
      (polls : List Poll) (dump : Dump) (neighbors : NeighborsStore) (w : Awaited)
      → await_neighbor_store src.id polls ≡ w
      → is_waiting w ≡ false
      → Finished s src
          (conclude texts s src.id
            (update_source texts s src polls dump neighbors now later)
            now
            later)
          (of_wait w dump (neighbors_map_at neighbors src.id))
          now
          t
  unfolding update_source conclude
  with_wait polls dump neighbors ready_to_go at ends =
      rw (update_source, at) (with_read dump neighbors _ refl)
  with_wait polls dump neighbors (gave_up e) at ends = rw (update_source, at) (reported e)
  with_wait polls dump neighbors waiting at ends = cc

-- A refresh that is due
refreshed_lem :
    (texts : Messages) (s : RoutesStore) (src : SourceConfig) (polls : List Poll) (dump : Dump)
    (neighbors : NeighborsStore) (checked_at locked_at now later t : ℤ)
    → should_refresh s.sources src.id checked_at ≡ true
    → is_waiting (await_neighbor_store src.id polls) ≡ false
    → let after =
        safe_update_source texts s src polls dump neighbors checked_at locked_at now later in
      let o =
        of_wait (await_neighbor_store src.id polls) dump (neighbors_map_at neighbors src.id) in
      (should_refresh after.sources src.id t
        ≡ not (ltb_ℤ t (now +ℤ pause s.sources.refresh_interval o)))
      × (after.backend ≡ kept s src o)
unfolding safe_update_source
refreshed_lem texts s src polls dump neighbors checked_at locked_at now later t due ends =
    let (st, known, free) = known_of_due s.sources src.id checked_at due in
    rw (due, lock_source_lem s.sources src.id locked_at st known free)
      (rw (lock_source_lem s.sources src.id locked_at st known free) (
        with_wait texts (record s { sources = with_status s.sources src.id (locked st locked_at) })
          src now later t (locked st locked_at)
          (get-put_self src.id (locked st locked_at) s.sources.status) polls dump neighbors _ refl
          ends))

-- The backend is as it was, or has the new routes of the source.
abbrev pub Stored : RoutesStore → SourceConfig → Outcome → RoutesBackend → Type 0
Stored s src none after = after ≡ s.backend
Stored s src (some (res, index)) after = Replaced s src res index after

kept-Stored : (s : RoutesStore) (src : SourceConfig) (o : Outcome) → Stored s src o (kept s src o)
kept-Stored s src none = refl
kept-Stored s src (some (res, index)) = prepare_routes-Replaced s src res index

-- A refresh of the routes of a source that is due, and that does not wait for the neighbors store
-- for ever, leaves the source unlocked, whatever fails or panics on the way: it is due again after
-- the refresh interval, or after ten seconds if the wait was given up, the source failed or
-- panicked, or the neighbors of the source could not be read. Then the routes are unchanged.
-- Otherwise the source has new routes, and the other sources have theirs: first the imported, then
-- the filtered ones that the source gave, in their order and without their details, but for those
-- whose neighbor is not known; each has its state, its neighbor and the source.
pub safe_update_source-routes :
    (texts : Messages) (s : RoutesStore) (src : SourceConfig) (polls : List Poll) (dump : Dump)
    (neighbors : NeighborsStore) (checked_at locked_at now later t : ℤ)
    → should_refresh s.sources src.id checked_at ≡ true
    → is_waiting (await_neighbor_store src.id polls) ≡ false
    → let after =
        safe_update_source texts s src polls dump neighbors checked_at locked_at now later in
      let o =
        of_wait (await_neighbor_store src.id polls) dump (neighbors_map_at neighbors src.id) in
      (should_refresh after.sources src.id t
        ≡ not (ltb_ℤ t (now +ℤ pause s.sources.refresh_interval o)))
      × Stored s src o after.backend
safe_update_source-routes texts s src polls dump neighbors checked_at locked_at now later t due
      ends =
    let o = of_wait (await_neighbor_store src.id polls) dump (neighbors_map_at neighbors src.id) in
    let (again, same) =
      refreshed_lem texts s src polls dump neighbors checked_at locked_at now later t due ends in
    (again, subst (λ b. Stored s src o b) (sym same) (kept-Stored s src o))
