-- ===== src/Store/Neighbors/Refresh.antt =====
-- What a refresh leaves behind.
use alice_lg.Common.{◌≡◌, refl, ap, true, not, Option, none, some, List, nat_eq, list_eq}
use alice_lg.Common.Assoc.{get, get-put_self}
use alice_lg.Common.Ints.{ℤ, ◌+ℤ◌, ltb_ℤ}
use alice_lg.Common.Texts.{Text}
use alice_lg.Api.Neighbor.{Neighbor}
use alice_lg.Store.Sources.{
  Sources, Status, Error, should_refresh, locked, refreshed, failed, ten_seconds,
}
use alice_lg.Store.Memory.Neighbors.{set_neighbors, NeighborsBackend}
use alice_lg.Store.Sources.Due.{
  with_status, known_of_due, lock_source_lem, refresh_success_lem, refresh_error_lem,
  should_refresh_lem,
}
use alice_lg.Store.Neighbors.{
  NeighborsStore, Reply, neighbors, fails, panics, finish_update, report, store_neighbors,
  safe_update_source,
}

-- The delay until the next refresh
abbrev pub pause : ℤ → Reply → ℤ
pause interval (neighbors _) = interval
pause interval _ = ten_seconds

-- The backend after a refresh
abbrev pub kept : NeighborsBackend → Text → Reply → NeighborsBackend
kept b id (neighbors ns) = set_neighbors b id ns
kept b id _ = b

-- A refresh that ends, of a known source
abbrev Finished : NeighborsStore → NeighborsStore → Text → Reply → ℤ → ℤ → Type 0
Finished s after id reply now t =
    (should_refresh after.sources id t
      ≡ not (ltb_ℤ t (now +ℤ pause s.sources.refresh_interval reply)))
    × (after.backend ≡ kept s.backend id reply)

stored : NeighborsStore → Text → List Neighbor → Sources → NeighborsStore
stored s id ns sources = record s { backend = set_neighbors s.backend id ns; sources = sources }

finish_update-neighbors :
    (error_text : Error → Text) (s : NeighborsStore) (id : Text) (ns : List Neighbor)
    (now later : ℤ) (st : Status)
    → get id s.sources.status ≡ some st
    → finish_update error_text s id (neighbors ns) now later
      ≡ stored s id ns (with_status s.sources id (refreshed st now later))
unfolding finish_update store_neighbors stored
finish_update-neighbors error_text s id ns now later st known =
    ap
      (λ (r : Sources × Option Error). elim r.1 as (λ _. NeighborsStore) [
        | none ↦ stored s id ns r.0
        | some e ↦ report (stored s id ns r.0) id (error_text e) now later
      ])
      (refresh_success_lem s.sources id now later st known)

finish_update-Finished :
    (error_text : Error → Text) (s : NeighborsStore) (id : Text) (reply : Reply) (now later t : ℤ)
    (st : Status)
    → get id s.sources.status ≡ some st
    → Finished s (finish_update error_text s id reply now later) id reply now t
unfolding finish_update report stored
finish_update-Finished error_text s id (neighbors ns) now later t st known =
    rw (finish_update-neighbors error_text s id ns now later st known)
      (should_refresh_lem s.sources id t (refreshed st now later) refl, refl)
finish_update-Finished error_text s id (fails e) now later t st known =
    rw (refresh_error_lem s.sources id e now later st known)
      (should_refresh_lem s.sources id t (failed st e now later) refl, refl)
finish_update-Finished error_text s id (panics e) now later t st known =
    rw (refresh_error_lem s.sources id e now later st known)
      (should_refresh_lem s.sources id t (failed st e now later) refl, refl)

-- A refresh that is due runs, whatever the source does then, a panic included: the source is not
-- left locked but becomes due again after the refresh interval, or after ten seconds
-- if the source failed; the backend has the new neighbors of the source, or else is unchanged.
pub safe_update_source_lem :
    (error_text : Error → Text) (s : NeighborsStore) (id : Text) (reply : Reply)
    (checked_at locked_at now later t : ℤ)
    → should_refresh s.sources id checked_at ≡ true
    → let after = safe_update_source error_text s id reply checked_at locked_at now later in
      (should_refresh after.sources id t
        ≡ not (ltb_ℤ t (now +ℤ pause s.sources.refresh_interval reply)))
      × (after.backend ≡ kept s.backend id reply)
unfolding safe_update_source
safe_update_source_lem error_text s id reply checked_at locked_at now later t due =
    let (st, known, free) = known_of_due s.sources id checked_at due in
    rw (due, lock_source_lem s.sources id locked_at st known free)
      (rw (lock_source_lem s.sources id locked_at st known free) (
        finish_update-Finished error_text
          (record s { sources = with_status s.sources id (locked st locked_at) }) id reply now later
          t (locked st locked_at) (get-put_self id (locked st locked_at) s.sources.status)))
