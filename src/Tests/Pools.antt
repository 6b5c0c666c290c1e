-- ===== src/Tests/Pools.antt =====
-- The pools of pkg/pools at concrete inputs.
use alice_lg.Common.{◌≡◌, refl, ℕ, [], ◌∷◌, some, nat_beq, list_beq, nat_eq}
use alice_lg.Common.Ints.{ℤ, pos, int_eq}
use alice_lg.Common.Texts.{codes}
use alice_lg.Pools.Node.{Node, new_node, traverse}
use alice_lg.Pools.Node.Paths.{object_at, get_or, Extends, traverse_lem}
use alice_lg.Pools.Lists.{Slice, IntListPool, new_int_list_pool, acquire}
use alice_lg.Pools.Lists.Sharing.{stored, Stores, acquire_lem, acquire_all, acquire_shares}
use alice_lg.Pools.Strings.{StringPool, new_string_pool}
use alice_lg.Pools.Strings
use alice_lg.Pools.Strings.Identity
use alice_lg.Pools.Strings.Identity.{
  IsDistinct, new-IsDistinct, acquire-IsDistinct, addresses_identify,
}

abbrev first_list : Slice ℤ
first_list = record { array = 7; elements = pos 65535 ∷ pos 666 ∷ [] }

abbrev same_list : Slice ℤ
same_list = record { array = 9; elements = pos 65535 ∷ pos 666 ∷ [] }

abbrev shorter_list : Slice ℤ
shorter_list = record { array = 8; elements = pos 65535 ∷ [] }

acquire_lem_example :
    (p' : IntListPool) × (acquire first_list (new_int_list_pool 1)
      ≡ some (p', get_or (stored first_list.elements (new_int_list_pool 1)) first_list))
    × Stores p'
        (new_int_list_pool 1)
        first_list.elements
        (get_or (stored first_list.elements (new_int_list_pool 1)) first_list)
acquire_lem_example = acquire_lem first_list (new_int_list_pool 1)

acquire_shares_example :
    (p1 p2 p3 : IntListPool) × (r : Slice ℤ) × (acquire first_list (new_int_list_pool 1)
      ≡ some (p1, r))
    × (acquire_all (shorter_list ∷ []) p1 ≡ some p2)
    × (acquire same_list p2 ≡ some (p3, r))
acquire_shares_example =
    acquire_shares first_list same_list (shorter_list ∷ []) (new_int_list_pool 1) refl

abbrev tree : Node ℤ ℕ
tree = new_node 0

traverse_lem_example :
    (n' : Node ℤ ℕ) × (traverse 0 5 (pos 1 ∷ pos 2 ∷ []) tree
      ≡ some (n', get_or (object_at (pos 1 ∷ pos 2 ∷ []) tree) 5))
    × Extends 0 n' tree (pos 1 ∷ pos 2 ∷ []) (get_or (object_at (pos 1 ∷ pos 2 ∷ []) tree) 5)
traverse_lem_example = traverse_lem 0 5 (pos 1) (pos 2 ∷ []) tree

addresses_identify_example :
    let (p1, q) = Strings.acquire (codes "rs1") (new_string_pool 3) in
    let (p2, r) = Strings.acquire (codes "rs1") (Identity.acquire_all (codes "rs2" ∷ []) p1) in
    (nat_beq q.address r.address ≡ list_beq (codes "rs1") (codes "rs1")) × (r.target ≡ codes "rs1")
addresses_identify_example =
    addresses_identify (new_string_pool 3) (codes "rs1") (codes "rs1") (codes "rs2" ∷ [])
      (new-IsDistinct 3)
