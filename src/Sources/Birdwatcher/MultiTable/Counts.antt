-- ===== src/Sources/Birdwatcher/MultiTable/Counts.antt =====
-- pkg/sources/birdwatcher/source_multitable.go: the neighbors, with the counts of the routes that
-- the pipes filtered. The counts in the JSON are integers; a missing one, where the code asserts its
-- type, is a panic. What the protocols are parsed to is an argument, as are the counts that the
-- server gives by URL. The iterations over one map have one order.
use alice_lg.Common.{
  Bool, Option, none, some, List, [], ◌∷◌, ◌++◌, length, map, nat_beq, nat_eq, list_eq, list_beq,
  if◌then◌else◌,
}
use alice_lg.Common.Assoc
use alice_lg.Common.Assoc.{Assoc, put}
use alice_lg.Common.Ints.{ℤ, pos, int_beq, wrap, ◌+ℤ◌, ◌-ℤ◌}
use alice_lg.Common.Texts.{Text, codes, to_lower}
use alice_lg.Api.Neighbor.{Neighbor}
use alice_lg.Caches.Neighbors
use alice_lg.Sources.Birdwatcher.{
  Outcome, done, failed, panicked, ◌>>=◌, Config, Source, Protocol, Protocols, filter_protocols,
}
use alice_lg.Sources.Birdwatcher.MultiTable.{
  get_master_pipe_name, is_alt_session, get_alt_pipe_name,
}

-- The BGP protocols, by table and address of the neighbor
abbrev pub Tree : Type 0
Tree = Assoc Text Protocols

-- The body of the loop of parseProtocolToTableTree
unfoldable pub add_protocol : Protocol → Tree → Tree
add_protocol p tree =
    let sessions : Protocols = elim (Assoc.get p.table tree) [
      | none ↦ []
      | some protocols ↦ protocols
    ] in
    if list_beq p.bird_protocol (codes "BGP")
    then put p.table (put p.neighbor_address p sessions) tree
    else tree

-- parseProtocolToTableTree
unfoldable pub parse_protocol_to_table_tree : Protocols → Tree → Tree
parse_protocol_to_table_tree [] tree = tree
parse_protocol_to_table_tree ((_, p) ∷ protocols) tree =
    parse_protocol_to_table_tree protocols (add_protocol p tree)

-- isProtocolUp
unfoldable pub is_protocol_up : Text → Bool
is_protocol_up protocol = list_beq (to_lower protocol) (codes "up")

-- A type assertion
abbrev pub asserted : {A : Type 0} → Option A → Outcome A
asserted none = panicked
asserted (some a) = done a

-- The number of routes that a protocol imported, as the code asserts it
abbrev pub imported_by : Protocol → Outcome ℤ
imported_by p = asserted p.routes >>= asserted

-- The number of routes that a pipe imported, or else the number of the last one
unfoldable pub pipe_routes : Protocols → Text → ℤ → Outcome ℤ
pipe_routes pipes pipe_name count = elim (Assoc.get pipe_name pipes) [
  | none ↦ done count
  | some pipe ↦ elim pipe.routes [
    | none ↦ panicked
    | some routes ↦ elim routes [ none ↦ done count | some imported ↦ done imported ]
  ]
]

-- A query of the count of filtered routes: the count, if there is one
abbrev pub Counter : Type 0
Counter = Text → Outcome (Option ℤ)

-- The table of a single router
unfoldable pub count_single : ℤ → Protocols → Assoc Text ℤ → Assoc Text ℤ
count_single count [] filtered = filtered
count_single count ((_, p) ∷ protocols) filtered =
    count_single count protocols (put p.protocol count filtered)

-- A pipe that filtered all routes
unfoldable pub count_all : Protocols → Assoc Text ℤ → Outcome (Assoc Text ℤ)
count_all [] filtered = done filtered
count_all ((_, p) ∷ protocols) filtered =
    (if is_protocol_up p.state
      then (do imported ← imported_by p; done (put p.protocol imported filtered))
      else done filtered)
    >>= count_all protocols

module _ (config : Config) where
  -- The name of the pipe of a table
  unfoldable pub pipe_name_of : Text → Outcome Text
  pipe_name_of table =
      let pipe_name = get_master_pipe_name config table in
      if is_alt_session config pipe_name
      then asserted (get_alt_pipe_name config pipe_name)
      else done pipe_name

  -- The first loop over the protocols of a table; the state has all routes, and those of the pipe.
  unfoldable pub sum_routes : Protocols → Protocols → ℤ × ℤ → Outcome (ℤ × ℤ)
  sum_routes pipes [] sums = done sums
  sum_routes pipes ((_, p) ∷ protocols) (all_routes, of_pipe) =
      (if is_protocol_up p.state
        then (do
          imported ← imported_by p
          pipe_name ← pipe_name_of p.table
          of_pipe' ← pipe_routes pipes pipe_name of_pipe
          done (wrap (all_routes +ℤ imported), of_pipe'))
        else done (all_routes, of_pipe))
      >>= sum_routes pipes protocols

  -- A pipe that filtered some routes: the server is asked for each protocol.
  unfoldable pub count_each : Counter → Protocols → Assoc Text ℤ → Outcome (Assoc Text ℤ)
  count_each counter [] filtered = done filtered
  count_each counter ((neighbor_address, p) ∷ protocols) filtered = do
    pipe ← pipe_name_of p.table
    count ← counter (
        codes "/routes/pipe/filtered/count?table="
        ++ p.table
        ++ codes "&pipe="
        ++ pipe
        ++ codes "&address="
        ++ neighbor_address)
    count_each counter protocols
        (elim count [ none ↦ filtered | some n ↦ put p.protocol n filtered ])

  -- What the loop over the tables does once the routes of a table are summed
  unfoldable pub count_table : Counter → Protocols → ℤ → ℤ → Assoc Text ℤ → Outcome (Assoc Text ℤ)
  count_table counter protocols all_routes of_pipe filtered =
      if int_beq all_routes (pos 0)
      then done filtered
      else if int_beq of_pipe all_routes
      then done filtered
      else if nat_beq (length protocols) 1
      then done (count_single (wrap (all_routes -ℤ of_pipe)) protocols filtered)
      else if int_beq of_pipe (pos 0)
      then count_all protocols filtered
      else count_each counter protocols filtered

  -- The loop over the tables
  unfoldable pub count_tables : Counter → Protocols → Tree → Assoc Text ℤ → Outcome (Assoc Text ℤ)
  count_tables counter pipes [] filtered = done filtered
  count_tables counter pipes ((_, protocols) ∷ tree) filtered = do
    sums ← sum_routes pipes protocols (pos 0, pos 0)
    counted ← count_table counter protocols sums.0 sums.1 filtered
    count_tables counter pipes tree counted

-- The body of the last loop of fetchNeighborsPipeMaster
unfoldable pub move_filtered : Assoc Text ℤ → Neighbor → Neighbor
move_filtered filtered neighbor = elim (Assoc.get neighbor.id filtered) [
  | none ↦ neighbor
  | some pipe_routes_filtered ↦ record neighbor {
    routes_accepted = wrap (neighbor.routes_accepted -ℤ pipe_routes_filtered);
    routes_filtered = wrap (neighbor.routes_filtered +ℤ pipe_routes_filtered);
  }
]

-- fetchNeighborsPipeMaster; `parse` is parseNeighbors.
unfoldable pub fetch_neighbors_pipe_master :
    Config
    → Counter
    → Outcome Protocols
    → (Protocols → Outcome (List Neighbor))
    → Outcome (List Neighbor)
fetch_neighbors_pipe_master config counter fetched parse = do
  bird_protocols ← fetched
  neighbors ← parse (filter_protocols bird_protocols (codes "BGP"))
  filtered ←
      count_tables config counter (filter_protocols bird_protocols (codes "Pipe"))
        (parse_protocol_to_table_tree bird_protocols []) []
  done (map (move_filtered filtered) neighbors)

-- Neighbors of a source over several tables; `shown` is what fetchNeighbors gives, and `ttl` the TTL
-- in the meta data of the response. NeighborsSummary is the same.
unfoldable pub neighbors :
    Source
    → Counter
    → Outcome Protocols
    → (Protocols → Outcome (List Neighbor))
    → Outcome (List Neighbor)
    → ℤ
    → ℤ
    → Source × Outcome (List Neighbor)
neighbors src counter fetched parse shown ttl now = elim (Neighbors.get src.neighbors_cache now) [
  | some response ↦ (src, done response.content)
  | none ↦
      let res =
        if src.config.peer_table_only
        then shown
        else fetch_neighbors_pipe_master src.config counter fetched parse in
      elim res [
        | failed e ↦ (src, failed e)
        | panicked ↦ (src, panicked)
        | done ns ↦
            let response : Neighbors.Response (List Neighbor) = record {
              ttl = ttl;
              content = ns;
            } in
            (record src { neighbors_cache = Neighbors.set src.neighbors_cache response }, done ns)
      ]
]
