-- ===== src/Pools/Node.antt =====
-- pkg/pools/node.go: a tree with a value at each node. The children, a map in the source, are an
-- association list that is declared with the nodes.
pub mod Paths
use alice_lg.Common.{
  Bool, true, false, Option, none, some, List, [], ◌∷◌, if◌then◌else◌, ◌>>=◌, Eq, ◌≡◌, refl, arith,
}

mutual
  pub data Node (T V : Type 0) : Type 0 where
    node : Children T V → V → Bool → Node T V

  pub data Children (T V : Type 0) : Type 0 where
    leaf : Children T V
    child : T → Node T V → Children T V → Children T V

module _ {T V : Type 0} where
  abbrev pub children : Node T V → Children T V
  children (node c v f) = c

  abbrev pub value : Node T V → V
  value (node c v f) = v

  abbrev pub final : Node T V → Bool
  final (node c v f) = f

  -- NewNode
  unfoldable pub new_node : V → Node T V
  new_node v = node leaf v false

  -- Set the object of a node, unless it has one.
  abbrev pub finalize : V → Node T V → Node T V
  finalize v (node c w true) = node c w true
  finalize v (node c w false) = node c v true

  abbrev pub with_children : Children T V → Node T V → Node T V
  with_children c (node _ v f) = node c v f

module _ {T V : Type 0} ⦃e : Eq T⦄ where
  -- n.children[id]
  unfoldable pub find_child : T → Children T V → Option (Node T V)
  find_child id leaf = none
  find_child id (child j n c) = if e.beq j id then some n else find_child id c

  -- n.children[id] = child
  unfoldable pub put_child : T → Node T V → Children T V → Children T V
  put_child id n leaf = child id n leaf
  put_child id n (child j m c) =
      let rest = put_child id n c in if e.beq j id then child id n c else child j m rest

  pub find_child-put_child :
      (id j : T) (n : Node T V) (c : Children T V)
      → find_child j (put_child id n c) ≡ (if e.beq id j then some n else find_child j c)
  unfolding find_child put_child
  find_child-put_child id j n leaf = refl
  find_child-put_child id j n (child k m c) =
      ground (arith, e.beq_iff id j, e.beq_iff k id, e.beq_iff k j, find_child-put_child id j n c)

module _ {T V : Type 0} ⦃e : Eq T⦄ (zero_value : V) where
  -- The child to go on with; a new one if there is none.
  unfoldable pub seek : T → Node T V → Node T V
  unfolding find_child new_node
  seek id n = elim (find_child id (children n)) [ none ↦ new_node zero_value | some m ↦ m ]

  -- Node.traverse: the tree after the call, and the object. An empty tail is an index out of range.
  unfoldable pub traverse : V → List T → Node T V → Option (Node T V × V)
  unfolding seek put_child
  traverse v [] n = none
  traverse v (id ∷ []) n =
      let m = finalize v (seek id n) in
      some (with_children (put_child id m (children n)) n, value m)
  traverse v (id ∷ i ∷ tail) n = do
    (m, found) ← traverse v (i ∷ tail) (seek id n)
    some (with_children (put_child id m (children n)) n, found)

  -- Node.read
  unfoldable pub read : List T → Node T V → Option V
  unfolding find_child
  read [] n = none
  read (id ∷ []) n = elim (find_child id (children n)) [
    | none ↦ some zero_value
    | some m ↦ some (value m)
  ]
  read (id ∷ i ∷ tail) n = elim (find_child id (children n)) [
    | none ↦ some zero_value
    | some m ↦ read (i ∷ tail) m
  ]
