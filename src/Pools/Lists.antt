-- ===== src/Pools/Lists.antt =====
-- pkg/pools/lists.go and `CommunitiesPool` of pkg/pools/communities.go: pools of lists of integers
-- and of strings. An object is a slice: the identity of a backing array, with its elements.
pub mod Sharing
use alice_lg.Common.{
  ℕ, suc, ◌+◌, ◌≡◌, refl, Bool, Option, none, some, List, [], ◌∷◌, nat_eq, list_eq, list_beq, Eq,
  if◌then◌else◌, ◌>>=◌,
}
use alice_lg.Common.Assoc.{Assoc, get, put}
use alice_lg.Common.Ints.{ℤ, int_eq}
use alice_lg.Common.Texts.{Text}
use alice_lg.Pools.Node.{Node, value, new_node, traverse, read}

-- A slice with elements of type A
pub record Slice (A : Type 0) : Type 0 where
  pub array : ℕ
  pub elements : List A

-- Array 0 stands for the nil slice.
abbrev pub nil_slice : {A : Type 0} → Slice A
nil_slice = record { array = 0; elements = [] }

-- IntListPool, and CommunitiesPool
abbrev pub IntListPool : Type 0
IntListPool = Node ℤ (Slice ℤ)

-- NewIntListPool, NewCommunitiesPool; the root has a slice of its own.
unfoldable pub new_int_list_pool : ℕ → IntListPool
unfolding new_node
new_int_list_pool array = new_node (record { array = array; elements = [] })

-- IntListPool.Acquire, CommunitiesPool.Acquire
unfoldable pub acquire : Slice ℤ → IntListPool → Option (IntListPool × Slice ℤ)
unfolding traverse
acquire list root = elim list.elements [
  | [] ↦ some (root, value root)
  | id ∷ ids ↦ traverse nil_slice list (id ∷ ids) root
]

-- CommunitiesPool.Read
unfoldable pub read_community : Slice ℤ → IntListPool → Option (Slice ℤ)
unfolding read
read_community c root = elim c.elements [
  | [] ↦ some (value root)
  | id ∷ ids ↦ read nil_slice (id ∷ ids) root
]

-- StringListPool
pub record StringListPool : Type 0 where
  pub root : Node ℕ (Slice Text)
  pub values : Assoc Text ℕ
  pub head : ℕ

-- NewStringListPool
unfoldable pub new_string_list_pool : ℕ → StringListPool
unfolding new_node
new_string_list_pool array = record {
  root = new_node (record { array = array; elements = [] });
  values = [];
  head = 1;
}

-- The loop that makes the identifier list, over the map and the head
unfoldable pub identify : List Text → Assoc Text ℕ → ℕ → List ℕ × Assoc Text ℕ × ℕ
unfolding get put
identify [] values head = ([], values, head)
identify (s ∷ list) values head = elim (get s values) [
  | some v ↦ let (ids, values', head') = identify list values head in (v ∷ ids, values', head')
  | none ↦
      let (ids, values', head') = identify list (put s (head + 1) values) (head + 1) in
      ((head + 1) ∷ ids, values', head')
]

-- StringListPool.Acquire
unfoldable pub acquire_strings : Slice Text → StringListPool → Option (StringListPool × Slice Text)
unfolding identify traverse
acquire_strings list p = elim list.elements [
  | [] ↦ some (p, value p.root)
  | s ∷ strings ↦
      let (ids, values, head) = identify (s ∷ strings) p.values p.head in
      (traverse nil_slice list ids p.root >>= λ done.
      some (record { root = done.0; values = values; head = head }, done.1))
]
