-- ===== src/Store/Status.antt =====
-- The status reports of pkg/store: State.String, GetSourcesStatus, and the method `Status` that the
-- two stores have alike.
use alice_lg.Common.{Bool, true, false, List, [], ◌∷◌, map, nat_eq, list_eq, if◌then◌else◌}
use alice_lg.Common.Assoc.{Assoc, put}
use alice_lg.Common.Ints.{ℤ}
use alice_lg.Common.Texts.{Text, codes}
use alice_lg.Store.Sources.{State, init, ready, busy, error, Status, Sources}

-- State.String
unfoldable pub state_string : State → Text
state_string init = codes "INIT"
state_string ready = codes "READY"
state_string busy = codes "BUSY"
state_string error = codes "ERROR"

-- GetSourcesStatus
unfoldable pub get_sources_status : Sources → List Status
get_sources_status s = map (λ (e : Text × Status). e.1) s.status

-- api.SourceStatus
pub record SourceStatus : Type 0 where
  pub refresh_interval : ℤ
  pub last_refresh : ℤ
  pub state : Text
  pub initialized : Bool

-- api.StoreStatus
pub record StoreStatus : Type 0 where
  pub initialized : Bool
  pub sources : Assoc Text SourceStatus

unfoldable pub source_status : Status → SourceStatus
unfolding state_string
source_status st = record {
  refresh_interval = st.refresh_interval;
  last_refresh = st.last_refresh;
  state = state_string st.state;
  initialized = st.initialized;
}

-- The loop of `Status`
unfoldable pub collect_status : List Status → StoreStatus → StoreStatus
unfolding source_status put
collect_status [] status = status
collect_status (st ∷ sts) status = collect_status sts (record {
  initialized = if st.initialized then status.initialized else false;
  sources = put st.source_id (source_status st) status.sources;
})

-- NeighborsStore.Status, RoutesStore.Status
unfoldable pub store_status : Sources → StoreStatus
unfolding get_sources_status collect_status
store_status s = collect_status (get_sources_status s) (record { initialized = true; sources = [] })
