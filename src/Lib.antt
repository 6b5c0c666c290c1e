-- ===== src/Lib.antt =====
-- Alice is a looking glass for BGP route servers. The server asks its sources (route servers of
-- several kinds) for their neighbors and routes, keeps them in two stores that it refreshes
-- periodically, and answers searches over them. This library models the core of the server, which
-- is written in Go.
--
-- The parts and their files:
--   Store: Sources is pkg/store/sources_store.go, the state of the refreshes (lock_source for
--   LockSource, and so on); Memory is pkg/store/backends/memory, where the routes and neighbors
--   are kept and searched; Neighbors is pkg/store/neighbors_store.go over both, and Routes is
--   pkg/store/routes_store.go, which waits for the neighbors, turns the routes of a source into
--   lookup routes (Refresh, Prepared, Pooled) and finds those of some neighbors (Lookup); Status has the
--   reports of both stores.
--   Api: Community, Neighbor and Route are the types of pkg/api/response*.go with their tests;
--   BgpCommunities is pkg/api/bgp_communities.go; Filters is pkg/api/search_filters.go
--   (Value, Group, Match, Combine, Collection; Six has the laws of the whole) and, in Query, the
--   parsers of pkg/api/search_filters_parsers.go. The backend calls match_route for each route.
--   Pools: pkg/pools, where equal strings and lists are shared. Node is the tree, Lists and
--   Strings are the pools. The sources acquire what they store from them.
--   Caches: pkg/caches, the responses of the sources by neighbor.
--   Sources: OpenBgpd is pkg/sources/openbgpd, with its two sources, and Birdwatcher is
--   pkg/sources/birdwatcher: what the sources over one table and over several tables share, and
--   in SingleTable and MultiTable the routes of a neighbor; over several tables, Counts has the
--   neighbors with the counts of the pipes, and Dump the routes of all neighbors, which workers
--   fetch in any order of their moves (Workers, Complete). They answer from the caches or ask a
--   server, whose answers are arguments.
--   Http: Pagination and Query are pkg/http/api_pagination.go, api_query.go and
--   api_validators.go, the two ends of the handlers; Routes is api_endpoints_routes.go, which asks
--   a source, Search is api_endpoints_search.go, which asks the stores, with MaybePrefix of
--   pkg/decoders/prefix.go, and Errors is api_errors.go with the wrapper of api.go.
--   Config: Expand is pkg/config/expand.go, the variables of the configuration and the expansion of
--   placeholders, and Variables has AddExpr; Communities is pkg/config/bgp_communities.go, the
--   communities and their ranges.
--   Common: what the others share; Go's maps (Assoc), ints (Ints), strings (Texts).
--   Tests: the theorems at concrete inputs.
--
-- Conventions. Functions keep the names of the source in snake case. A method takes its receiver
-- and gives the new state. A panic (index out of range, failed type assertion) is `none`, or a
-- constructor where there are errors too. A map is an association list in the order of its
-- iteration, which Go leaves open: theorems hold for every list. A pointer is an address with the
-- text that stands there; a slice is the identity of its array with its elements. The clock, the
-- reply of a source and the query of a request are arguments. An `int` has 64 bits, and sums and
-- products wrap where the source's can; strings are lists of code points, and case mapping covers
-- the ASCII letters. A mutex makes a call one step, and interleavings are lists of such steps.
-- Fuel stands in three places. In the printing of numbers a number is its own bound: the digits are
-- read back as the number. In the search of placeholders it is the length of the text and one more,
-- as each key is shorter than its placeholder. The expansion of a text has no bound, as it need not end.
--
-- Not modelled: the parsers and HTTP clients of the birdwatcher and OpenBGPD sources (what they
-- give is an argument), the GoBGP source with its copied apiutil, the configuration but for the
-- variables and communities, the decoders but for MaybePrefix and IntListFromStrings, the
-- PostgreSQL backend, the HTTP glue, sorting (an argument where a theorem depends on it),
-- durations and meta data of responses, logs, metrics, jitter and sleeps, and the user interface.
pub mod Common
pub mod Api
pub mod Store
pub mod Pools
pub mod Caches
pub mod Http
pub mod Sources
pub mod Config
mod Tests
