-- ===== src/Pools/Node/Paths.antt =====
-- A tree as a map from paths to objects.
use alice_lg.Common.{
  ◌≡◌, refl, ap, true, false, Option, none, some, List, [], ◌∷◌, if◌then◌else◌, Eq, arith, list_beq,
}
use alice_lg.Pools.Node.{
  Node, node, children, value, final, new_node, finalize, with_children, find_child, put_child,
  find_child-put_child, seek, traverse,
}

-- The object that was stored first, or else the new one
abbrev pub get_or : {A : Type 0} → Option A → A → A
get_or none a = a
get_or (some b) a = b

module _ {T V : Type 0} ⦃e : Eq T⦄ where
  -- The object at the end of a path, if one was set there.
  unfoldable pub object_at : List T → Node T V → Option V
  object_at [] n = if final n then some (value n) else none
  object_at (id ∷ t) n = elim (find_child id (children n)) [ none ↦ none | some m ↦ object_at t m ]

module _ {T V : Type 0} ⦃e : Eq T⦄ (zero_value : V) where
  object_at-new_node : (t : List T) → object_at t (new_node {T = T} zero_value) ≡ none
  unfolding object_at new_node find_child
  object_at-new_node [] = refl
  object_at-new_node (id ∷ t) = refl

  object_at-seek :
      (id : T) (t : List T) (n : Node T V)
      → object_at t (seek zero_value id n) ≡ object_at (id ∷ t) n
  unfolding object_at seek
  object_at-seek id t n = ground (arith, object_at-new_node t)

  object_at-finalize_nil :
      (v : V) (n : Node T V) → object_at [] (finalize v n) ≡ some (get_or (object_at [] n) v)
  unfolding object_at
  object_at-finalize_nil v (node c w true) = refl
  object_at-finalize_nil v (node c w false) = refl

  object_at-finalize_cons :
      (v : V) (i : T) (t : List T) (n : Node T V)
      → object_at (i ∷ t) (finalize v n) ≡ object_at (i ∷ t) n
  unfolding object_at
  object_at-finalize_cons v i t (node c w true) = refl
  object_at-finalize_cons v i t (node c w false) = refl

  value-finalize : (v : V) (n : Node T V) → value (finalize v n) ≡ get_or (object_at [] n) v
  unfolding object_at
  value-finalize v (node c w true) = refl
  value-finalize v (node c w false) = refl

  -- A child that is replaced shows in the paths through it only.
  object_at-put_nil :
      (id : T) (m n : Node T V)
      → object_at [] (with_children (put_child id m (children n)) n) ≡ object_at [] n
  unfolding object_at
  object_at-put_nil id m (node c w f) = refl

  object_at-put_cons :
      (id j : T) (t : List T) (m n : Node T V)
      → object_at (j ∷ t) (with_children (put_child id m (children n)) n)
        ≡ (if e.beq id j then object_at t m else object_at (j ∷ t) n)
  unfolding object_at
  object_at-put_cons id j t m (node c w f) = ground (arith, find_child-put_child id j m c)

  -- The map from paths to objects, with an object at one more path
  abbrev pub Extends : Node T V → Node T V → List T → V → Type 0
  Extends n' n p v =
      (q : List T) → object_at q n' ≡ (if list_beq p q then some v else object_at q n)

  through :
      (id : T) (tail : List T) (m n : Node T V) (v w : V)
      → v ≡ w
      → Extends m (seek zero_value id n) tail v
      → Extends (with_children (put_child id m (children n)) n) n (id ∷ tail) w
  through id tail m n v w same extends [] = object_at-put_nil id m n
  through id tail m n v w same extends (j ∷ t) =
      ground
        (arith, object_at-put_cons id j t m n, extends t, object_at-seek id t n, e.beq_iff id j)

  -- Acquiring a path that is not empty never panics; it returns the object that was first stored
  -- under the path, or else the new one, which is then stored under that path and no other.
  pub traverse_lem :
      (v : V) (id : T) (tail : List T) (n : Node T V)
      → (n' : Node T V) × (traverse zero_value v (id ∷ tail) n
          ≡ some (n', get_or (object_at (id ∷ tail) n) v))
        × Extends n' n (id ∷ tail) (get_or (object_at (id ∷ tail) n) v)
  unfolding traverse
  traverse_lem v id [] n = (
    with_children (put_child id (finalize v (seek zero_value id n)) (children n)) n,
    rw (value-finalize, object_at-seek) refl,
    last,
  )
    where
      last :
          (q : List T)
          → object_at q
              (with_children (put_child id (finalize v (seek zero_value id n)) (children n)) n)
            ≡ (if list_beq (id ∷ []) q
                then some (get_or (object_at (id ∷ []) n) v)
                else object_at q n)
      last [] = object_at-put_nil id (finalize v (seek zero_value id n)) n
      last (j ∷ []) = ground (
        arith,
        object_at-put_cons id j [] (finalize v (seek zero_value id n)) n,
        object_at-finalize_nil v (seek zero_value id n),
        object_at-seek id [] n,
      )
      last (j ∷ i ∷ t) = ground (
        arith,
        object_at-put_cons id j (i ∷ t) (finalize v (seek zero_value id n)) n,
        object_at-finalize_cons v i t (seek zero_value id n),
        object_at-seek id (i ∷ t) n,
        e.beq_iff id j,
      )
  traverse_lem v id (i ∷ tail) n =
      let (m, run, extends) = traverse_lem v i tail (seek zero_value id n) in
      (
        with_children (put_child id m (children n)) n,
        rw (run, object_at-seek) refl,
        through id (i ∷ tail) m n _ _ (ap (λ o. get_or o v) (object_at-seek id (i ∷ tail) n))
            extends,
      )
