-- ===== src/Api/Filters/Collection.antt =====
-- pkg/api/search_filters.go: `SearchFilters`, a slice with six groups in a fixed order. An index
-- out of range and a method call on a nil group are panics, `none`.
use Prim.Native.String.{String}
use alice_lg.Common.{
  ℕ, Bool, true, false, not, Option, none, some, List, [], ◌∷◌, length, get_elem?, set, nat_beq,
  ltb, string_eq, ◌==◌, if◌then◌else◌, ◌>>=◌,
}
use alice_lg.Common.Ints.{pos}
use alice_lg.Common.Texts.{Text, codes}
use alice_lg.Api.Community.{Community, ExtCommunity, community_string, ext_string}
use alice_lg.Api.Route.{Route, LookupRoute}
use alice_lg.Api.Filters.Value.{Filter, FilterValue, int, pointer, community, ext_community}
use alice_lg.Api.Filters.Group.{Group, add_filter}
use alice_lg.Api.Filters.Match.{
  Filterable, match_any, match_all, search_key_sources, search_key_asns, search_key_communities,
  search_key_ext_communities, search_key_large_communities, search_key_addr_family,
}
use alice_lg.Api.Filters.Combine.{combine_group, sub_group, merge_group}

-- SearchFilters
abbrev pub SearchFilters : Type 0
SearchFilters = List Group

abbrev pub empty_group : String → Group
empty_group key = record { key = key; filters = []; index = [] }

-- NewSearchFilters
unfoldable pub new_search_filters : SearchFilters
new_search_filters =
    empty_group search_key_sources
    ∷ empty_group search_key_asns
    ∷ empty_group search_key_communities
    ∷ empty_group search_key_ext_communities
    ∷ empty_group search_key_large_communities
    ∷ empty_group search_key_addr_family
    ∷ []

-- The position of a key in `GetGroupByKey`
unfoldable pub group_position : String → Option ℕ
group_position key =
    if key == search_key_sources
    then some 0
    else if key == search_key_asns
    then some 1
    else if key == search_key_communities
    then some 2
    else if key == search_key_ext_communities
    then some 3
    else if key == search_key_large_communities
    then some 4
    else if key == search_key_addr_family
    then some 5
    else none

-- SearchFilters.GetGroupByKey, for a caller that uses the group
unfoldable pub get_group_by_key : SearchFilters → String → Option Group
unfolding group_position
get_group_by_key s key = do i ← group_position key; get_elem? s i

-- `s.GetGroupByKey(key).method(...)` for a method that changes the group in place
unfoldable pub update_group : SearchFilters → String → (Group → Option Group) → Option SearchFilters
unfolding get_group_by_key group_position
update_group s key method = do
  i ← group_position key
  g ← get_group_by_key s key
  g' ← method g
  some (set s i g')

abbrev pub filter_of : Text → FilterValue → Filter
filter_of name value = record { cardinality = 0; name = name; value = value }

-- UpdateSourcesFromLookupRoute
unfoldable pub update_sources_from_lookup_route : SearchFilters → LookupRoute → Option SearchFilters
unfolding update_group add_filter
update_sources_from_lookup_route s r =
    update_group s search_key_sources
      (λ g. add_filter g (filter_of r.route_server.name (pointer r.route_server.id)))

-- UpdateASNSFromLookupRoute
unfoldable pub update_asns_from_lookup_route : SearchFilters → LookupRoute → Option SearchFilters
unfolding update_group add_filter
update_asns_from_lookup_route s r =
    update_group s search_key_asns
      (λ g. add_filter g (filter_of r.neighbor.description (int r.neighbor.asn)))

-- The loops over the communities of a route
unfoldable pub add_communities : List Community → Group → Option Group
unfolding community_string add_filter
add_communities [] g = some g
add_communities (c ∷ cs) g = do
  g' ← add_filter g (filter_of (community_string c) (community c))
  add_communities cs g'

unfoldable pub add_ext_communities : List ExtCommunity → Group → Option Group
unfolding ext_string add_filter
add_ext_communities [] g = some g
add_ext_communities (c ∷ cs) g = do
  name ← ext_string c
  g' ← add_filter g (filter_of name (ext_community c))
  add_ext_communities cs g'

-- UpdateFromRoute; UpdateCommunitiesFromLookupRoute does the same with the route of a lookup route.
unfoldable pub update_from_route : SearchFilters → Route → Option SearchFilters
unfolding update_group add_communities add_ext_communities
update_from_route s r = do
  s1 ← update_group s search_key_communities (add_communities r.bgp.communities)
  s2 ← update_group s1 search_key_ext_communities (add_ext_communities r.bgp.ext_communities)
  update_group s2 search_key_large_communities (add_communities r.bgp.large_communities)

-- UpdateCommunitiesFromLookupRoute
unfoldable pub update_communities_from_lookup_route :
    SearchFilters → LookupRoute → Option SearchFilters
unfolding update_from_route
update_communities_from_lookup_route s r = update_from_route s r.route

-- UpdateFromLookupRoute
unfoldable pub update_from_lookup_route : SearchFilters → LookupRoute → Option SearchFilters
unfolding update_sources_from_lookup_route update_asns_from_lookup_route
    update_communities_from_lookup_route
update_from_lookup_route s r = do
  s1 ← update_sources_from_lookup_route s r
  s2 ← update_asns_from_lookup_route s1 r
  update_communities_from_lookup_route s2 r

-- addFilterAddrFamily
unfoldable pub add_filter_addr_family : SearchFilters → ℕ → Option SearchFilters
unfolding update_group add_filter
add_filter_addr_family s af = update_group s search_key_addr_family (λ g. add_filter g (record {
  cardinality = 1;
  name = if nat_beq af 2 then codes "IPv6" else codes "IPv4";
  value = int (pos af);
}))

-- SetFilterAddrFamilies
unfoldable pub set_filter_addr_families : SearchFilters → Bool → Bool → Option SearchFilters
unfolding add_filter_addr_family
set_filter_addr_families s ip4 ip6 = do
  s' ← (if ip4 then add_filter_addr_family s 1 else some s)
  if ip6 then add_filter_addr_family s' 2 else some s'

-- `if !matched { return false }`, and what follows
abbrev pub unless_matched : Bool → Option Bool → Option Bool
unless_matched matched rest = if not matched then some false else rest

-- MatchRoute: the groups one after the other, with the early returns
unfoldable pub match_route : SearchFilters → Filterable → Option Bool
unfolding get_group_by_key match_any match_all
match_route s r = do
  by_source ← get_group_by_key s search_key_sources
  unless_matched (match_any by_source r) (do
    by_asn ← get_group_by_key s search_key_asns
    unless_matched (match_any by_asn r) (do
      by_community ← get_group_by_key s search_key_communities
      unless_matched (match_all by_community r) (do
        by_ext_community ← get_group_by_key s search_key_ext_communities
        unless_matched (match_all by_ext_community r) (do
          by_large_community ← get_group_by_key s search_key_large_communities
          unless_matched (match_all by_large_community r) (do
            by_addr_family ← get_group_by_key s search_key_addr_family
            unless_matched (match_any by_addr_family r) (some true))))))

-- The loop over the groups that `Combine`, `Sub` and `MergeProperties` share: the group of the
-- other filters at the same position is read by its index.
unfoldable pub pairwise :
    (Group → Group → Option Group) → SearchFilters → SearchFilters → Option SearchFilters
pairwise round [] other = some []
pairwise round (group ∷ s) [] = none
pairwise round (group ∷ s) (other_group ∷ other) = do
  g ← round group other_group
  rest ← pairwise round s other
  some (g ∷ rest)

-- SearchFilters.Combine
unfoldable pub combine : SearchFilters → SearchFilters → Option SearchFilters
unfolding pairwise combine_group
combine = pairwise combine_group

-- SearchFilters.Sub
unfoldable pub sub : SearchFilters → SearchFilters → Option SearchFilters
unfolding pairwise sub_group
sub = pairwise sub_group

-- SearchFilters.MergeProperties
unfoldable pub merge_properties : SearchFilters → SearchFilters → Option SearchFilters
unfolding pairwise merge_group
merge_properties = pairwise merge_group

-- HasGroup
unfoldable pub has_group : SearchFilters → String → Option Bool
unfolding get_group_by_key
has_group s key = do group ← get_group_by_key s key; some (ltb 0 (length group.filters))
