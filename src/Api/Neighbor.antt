-- ===== src/Api/Neighbor.antt =====
-- pkg/api/response_neighbors.go: neighbors. The original response in `Details`, a JSON object that
-- no code here reads, is left out. `NeighborFilter` is that of pkg/api/search_filters.go.
use alice_lg.Common.{Bool, true, false, ◌&&◌, not, length, nat_beq, nat_eq, list_beq, if◌then◌else◌}
use alice_lg.Common.Assoc.{Assoc}
use alice_lg.Common.Ints.{ℤ, pos, int_beq, ltb_ℤ}
use alice_lg.Common.Texts.{Text, to_lower, contains, atoi}

-- RoutesChannel
pub record RoutesChannel : Type 0 where
  pub routes_received : ℤ
  pub routes_filtered : ℤ
  pub routes_exported : ℤ
  pub routes_preferred : ℤ
  pub routes_accepted : ℤ

-- Neighbor
pub record Neighbor : Type 0 where
  pub id : Text
  pub address : Text
  pub asn : ℤ
  pub state : Text
  pub description : Text
  pub routes_received : ℤ
  pub routes_filtered : ℤ
  pub routes_exported : ℤ
  pub routes_preferred : ℤ
  pub routes_accepted : ℤ
  pub uptime : ℤ
  pub last_error : Text
  pub route_server_id : Text
  pub routes_channels : Assoc Text RoutesChannel

-- Neighbor.MatchSourceID
unfoldable pub match_source_id : Neighbor → Text → Bool
match_source_id n id = list_beq n.route_server_id id

-- Neighbor.MatchASN
unfoldable pub match_asn : Neighbor → ℤ → Bool
match_asn n asn = int_beq n.asn asn

-- Neighbor.MatchName
unfoldable pub match_name : Neighbor → Text → Bool
match_name n name = contains (to_lower n.description) (to_lower name)

-- NeighborFilter
pub record NeighborFilter : Type 0 where
  pub name : Text
  pub asn : ℤ

-- NeighborFilterFromQuery, from the two values of the query ("" for one that is missing)
unfoldable pub neighbor_filter_from_query : Text → Text → NeighborFilter
neighbor_filter_from_query name asn_value = record {
  name = name;
  asn = if nat_beq (length asn_value) 0 then pos 0 else (atoi asn_value).0;
}

-- NeighborFilter.Match
unfoldable pub match_neighbor : NeighborFilter → Neighbor → Bool
unfolding match_name match_asn
match_neighbor s neighbor =
    if not (nat_beq (length s.name) 0) && match_name neighbor s.name
    then true
    else if ltb_ℤ (pos 0) s.asn && match_asn neighbor s.asn
    then true
    else false
