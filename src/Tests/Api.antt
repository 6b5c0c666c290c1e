-- ===== src/Tests/Api.antt =====
-- The data structures of pkg/api at concrete inputs.
use Prim.Native.String.{String}
use alice_lg.Common.{◌≡◌, refl, List, [], ◌∷◌, none, some, ◌&&◌, nat_eq, ◌+◌, arith}
use alice_lg.Common.Ints.{pos, int_eq}
use alice_lg.Common.Texts.{Text, codes, split, trim_space}
use alice_lg.Api.Community.{Community, ExtCommunity, BgpInfo, text, num, part_eq, community_string}
use alice_lg.Api.BgpCommunities.{
  Tree, label, table, empty, entry, set_label, lookup, found, find_entry,
}
use alice_lg.Api.BgpCommunities.Labels.{is_blocked, last_key, lookup-set_label}
use alice_lg.Api.Filters.Value.{Filter, string, community, value_string}
use alice_lg.Api.Filters.Group.{Group, add_filters}
use alice_lg.Api.Filters.Match.{Filterable, search_key_communities}
use alice_lg.Api.Filters.Collection.{SearchFilters, filter_of, match_route, combine}
use alice_lg.Api.Filters.Kinds.{Kind}
use alice_lg.Api.Filters.Six.{Groups, listed, IsPair, IsAligned, either, both, combine-match_route}
use alice_lg.Api.Filters.Index.{IsIndexed}
use alice_lg.Api.Filters.Count.{count, cardinality_of, add_filters-count, IsIndexed-new}
use alice_lg.Api.Filters.Query.{parsed, parse_community_filter_text}
use alice_lg.Api.Filters.Query.RoundTrip.{parse-token}

abbrev bgp : BgpInfo
bgp = record {
  origin = none;
  as_path = [];
  next_hop = none;
  communities = (pos 65535 ∷ pos 666 ∷ []) ∷ [];
  large_communities = (pos 1 ∷ pos 2 ∷ pos 3 ∷ []) ∷ [];
  ext_communities = (text (codes "ro") ∷ num (pos 1) ∷ num (pos 2) ∷ []) ∷ [];
  local_pref = pos 0;
  med = pos 0;
  otc = none;
}

abbrev blackhole : Community
blackhole = pos 65535 ∷ pos 666 ∷ []

abbrev large : Community
large = pos 1 ∷ pos 2 ∷ pos 3 ∷ []

abbrev extended : ExtCommunity
extended = text (codes "ro") ∷ num (pos 1) ∷ num (pos 2) ∷ []

abbrev well_known : Tree
well_known = table (
    entry (codes "65535") (table (entry (codes "0") (label (codes "graceful shutdown")) empty))
      empty)

lookup-set_label_example :
    (d : Tree) × (set_label well_known (codes "65535:666") (codes "blackhole") ≡ some d)
    × (lookup d (codes "65535:666") ≡ found (codes "blackhole"))
unfolding split is_blocked last_key find_entry trim_space
lookup-set_label_example =
    lookup-set_label well_known (codes "65535:666") (codes "blackhole") (codes "65535")
      (codes "666" ∷ []) refl refl refl

abbrev named : String → Filter
named s = filter_of [] (string (codes s))

abbrev sources_group : List Filter → Group
sources_group fs = record { key = "sources"; filters = fs; index = [] }

abbrev group_of : String → List Filter → Group
group_of key fs = record { key = key; filters = fs; index = [] }

abbrev groups_of : List Filter → Groups
groups_of fs = record {
  by_source = group_of "sources" fs;
  by_asn = group_of "asns" [];
  by_community = group_of "communities" [];
  by_ext_community = group_of "ext_communities" [];
  by_large_community = group_of "large_communities" [];
  by_addr_family = group_of "addr_family" [];
}

abbrev pair_of_empty : {k : Kind} (key : String) → IsPair k (group_of key []) (group_of key [])
pair_of_empty key = record { own_kind = tt; other_kind = tt; same_key = refl }

sources-IsAligned : IsAligned (groups_of (named "rs1" ∷ [])) (groups_of (named "rs2" ∷ []))
unfolding value_string
sources-IsAligned = record {
  sources = record {
    own_kind = (record { kind = refl; ref = codes "rs1"; printed = refl }, tt);
    other_kind = (record { kind = refl; ref = codes "rs2"; printed = refl }, tt);
    same_key = refl;
  };
  asns = pair_of_empty "asns";
  standard = pair_of_empty "communities";
  extended = pair_of_empty "ext_communities";
  large = pair_of_empty "large_communities";
  families = pair_of_empty "addr_family";
}

combine-match_route_example :
    let g = groups_of (named "rs1" ∷ []) in
    let h = groups_of (named "rs2" ∷ []) in
    (c : SearchFilters) × (combine (listed g) (listed h) ≡ some c)
    × ((r : Filterable)
        → match_route c r
          ≡ some (
              either g.by_source h.by_source r
              && either g.by_asn h.by_asn r
              && both g.by_community h.by_community r
              && both g.by_ext_community h.by_ext_community r
              && both g.by_large_community h.by_large_community r
              && either g.by_addr_family h.by_addr_family r))
combine-match_route_example =
    combine-match_route (groups_of (named "rs1" ∷ [])) (groups_of (named "rs2" ∷ []))
      sources-IsAligned

add_filters-count_example :
    (g : Group) × (add_filters (sources_group []) (named "rs1" ∷ named "rs1" ∷ []) ≡ some g)
    × IsIndexed g
    × ((q : Text)
        → cardinality_of g q
          ≡ cardinality_of (sources_group []) q + count q (codes "rs1" ∷ codes "rs1" ∷ []))
unfolding value_string
add_filters-count_example =
    add_filters-count (sources_group []) (named "rs1" ∷ named "rs1" ∷ [])
      (codes "rs1" ∷ codes "rs1" ∷ []) (IsIndexed-new "sources") (refl, (refl, tt))

parse-token_example :
    parse_community_filter_text (community_string blackhole)
    ≡ parsed (search_key_communities, filter_of (community_string blackhole) (community blackhole))
parse-token_example = parse-token (pos 65535) (pos 666) [] (omega arith, (omega arith, tt))
