-- ===== src/Api/Filters/Match.antt =====
-- pkg/api/search_filters.go: `Filterable` and the matching of a group against a route.
use Prim.Native.String.{String}
use alice_lg.Common.{
  ℕ, ◌-◌, ◌%◌, Bool, true, false, Option, none, some, List, length, any, all, nat_beq, string_eq,
  ◌==◌, if◌then◌else◌,
}
use alice_lg.Common.Ints.{ℤ, pos, negsuc}
use alice_lg.Common.Texts.{Text}
use alice_lg.Api.Community.{Community, ExtCommunity}
use alice_lg.Api.Filters.Value.{Filter, FilterValue, int, string, community, ext_community}
use alice_lg.Api.Filters.Group.{Group}

-- The search keys
abbrev pub search_key_sources : String
search_key_sources = "sources"

abbrev pub search_key_asns : String
search_key_asns = "asns"

abbrev pub search_key_communities : String
search_key_communities = "communities"

abbrev pub search_key_ext_communities : String
search_key_ext_communities = "ext_communities"

abbrev pub search_key_large_communities : String
search_key_large_communities = "large_communities"

abbrev pub search_key_addr_family : String
search_key_addr_family = "addr_family"

-- The interface Filterable
pub record Filterable : Type 0 where
  pub match_source_id : Text → Bool
  pub match_asn : ℤ → Bool
  pub match_community : Community → Bool
  pub match_ext_community : ExtCommunity → Bool
  pub match_large_community : Community → Bool
  pub match_addr_family : ℕ → Bool

-- uint8(v): the low eight bits
unfoldable pub to_uint8 : ℤ → ℕ
to_uint8 (pos n) = n % 256
to_uint8 (negsuc n) = 255 - n % 256

-- SearchFilterComparator
abbrev pub Comparator : Type 0
Comparator = Filterable → FilterValue → Bool

-- searchFilterMatchSource
unfoldable pub filter_match_source : Comparator
filter_match_source route (string id) = route.match_source_id id
filter_match_source route _ = false

-- searchFilterMatchASN
unfoldable pub filter_match_asn : Comparator
filter_match_asn route (int asn) = route.match_asn asn
filter_match_asn route _ = false

-- searchFilterMatchCommunity
unfoldable pub filter_match_community : Comparator
filter_match_community route (community c) = route.match_community c
filter_match_community route _ = false

-- searchFilterMatchExtCommunity
unfoldable pub filter_match_ext_community : Comparator
filter_match_ext_community route (ext_community c) = route.match_ext_community c
filter_match_ext_community route _ = false

-- searchFilterMatchLargeCommunity
unfoldable pub filter_match_large_community : Comparator
filter_match_large_community route (community c) = route.match_large_community c
filter_match_large_community route _ = false

-- searchFilterMatchAddrFamily
unfoldable pub filter_match_addr_family : Comparator
unfolding to_uint8
filter_match_addr_family route (int family) = route.match_addr_family (to_uint8 family)
filter_match_addr_family route _ = false

-- selectCmpFuncByKey
unfoldable pub select_cmp_func_by_key : String → Option Comparator
select_cmp_func_by_key key =
    if key == search_key_sources
    then some filter_match_source
    else if key == search_key_asns
    then some filter_match_asn
    else if key == search_key_communities
    then some filter_match_community
    else if key == search_key_ext_communities
    then some filter_match_ext_community
    else if key == search_key_large_communities
    then some filter_match_large_community
    else if key == search_key_addr_family
    then some filter_match_addr_family
    else none

-- The loop of `MatchAny` with a comparator
abbrev pub some_matches : Filterable → List Filter → Option Comparator → Bool
some_matches route filters none = false
some_matches route filters (some cmp) = any (λ f. cmp route f.value) filters

-- The loop of `MatchAll` with a comparator
abbrev pub every_matches : Filterable → List Filter → Option Comparator → Bool
every_matches route filters none = false
every_matches route filters (some cmp) = all (λ f. cmp route f.value) filters

-- SearchFilterGroup.MatchAny
unfoldable pub match_any : Group → Filterable → Bool
match_any g route =
    if nat_beq (length g.filters) 0
    then true
    else some_matches route g.filters (select_cmp_func_by_key g.key)

-- SearchFilterGroup.MatchAll
unfoldable pub match_all : Group → Filterable → Bool
match_all g route =
    if nat_beq (length g.filters) 0
    then true
    else every_matches route g.filters (select_cmp_func_by_key g.key)
