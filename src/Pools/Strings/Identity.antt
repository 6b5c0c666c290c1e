-- ===== src/Pools/Strings/Identity.antt =====
-- Pointers of the pool are equal exactly if their texts are: what the comparison of pointers in
-- `searchFilterCmpString` and `MatchNeighborQuery` of pkg/api relies on.
use alice_lg.Common.{
  ℕ, ◌+◌, ◌<◌, ◌≡◌, none, some, List, [], ◌∷◌, list_beq, list_beq_iff, nat_beq, nat_eq, list_eq,
  arith, Option-cases, inl, inr, Bool_ext,
}
use alice_lg.Common.Assoc.{get, put, get-put}
use alice_lg.Common.Texts.{Text}
use alice_lg.Api.Filters.Value.{Pointer}
use alice_lg.Pools.Strings.{StringPool, new_string_pool, fresh, acquire, get_pointer}

-- Each text has its own pointer, to it, below the next address.
pub record IsDistinct (p : StringPool) : Type 0 where
  pub points :
      (s : Text) (q : Pointer)
      → get s p.values ≡ some q
      → (q.target ≡ s) × (q.address < p.next_address)
  pub injective :
      (s t : Text) (q r : Pointer)
      → get s p.values ≡ some q
      → get t p.values ≡ some r
      → q.address ≡ r.address
      → s ≡ t

-- A new pool is distinct.
pub new-IsDistinct : (next : ℕ) → IsDistinct (new_string_pool next)
unfolding new_string_pool get
new-IsDistinct next = record {
  points = λ s q h. absurd (ground arith);
  injective = λ s t q r h k e. absurd (ground arith);
}

module _ (a : Text) (p : StringPool) (h : IsDistinct p) where
  stored_new :
      (s : Text) (q : Pointer)
      → get a p.values ≡ none
      → get s (put a (fresh p a) p.values) ≡ some q
      → (q.target ≡ s) × (q.address < p.next_address + 1)
  stored_new s q missing at =
      ground (arith, get-put a s (fresh p a) p.values, list_beq_iff a s, h.points s q)

  injective_new :
      (s t : Text) (q r : Pointer)
      → get a p.values ≡ none
      → get s (put a (fresh p a) p.values) ≡ some q
      → get t (put a (fresh p a) p.values) ≡ some r
      → q.address ≡ r.address
      → s ≡ t
  injective_new s t q r missing at at' e = ground (
    arith,
    get-put a s (fresh p a) p.values,
    get-put a t (fresh p a) p.values,
    list_beq_iff a s,
    list_beq_iff a t,
    h.points s q,
    h.points t r,
    h.injective s t q r,
  )

  -- A call keeps the pool distinct.
  pub acquire-IsDistinct : IsDistinct (acquire a p).0
  unfolding acquire
  acquire-IsDistinct = elim (Option-cases (get a p.values)) [
    | inl missing ↦
        rw (missing, acquire)
          (record {
            points = λ s q. stored_new s q missing;
            injective = λ s t q r. injective_new s t q r missing;
          })
    | inr (q, known) ↦ rw (known, acquire) (record { points = h.points; injective = h.injective })
  ]

  -- A call returns the pointer that the pool then has for the text.
  pub acquire_stored : get_pointer a (acquire a p).0 ≡ some (acquire a p).1
  unfolding acquire get_pointer
  acquire_stored = ground (arith, get-put a a (fresh p a) p.values, list_beq_iff a a)

  -- A call keeps the pointer of every text.
  pub acquire_keeps :
      (s : Text) (q : Pointer) → get_pointer s p ≡ some q → get_pointer s (acquire a p).0 ≡ some q
  unfolding acquire get_pointer
  acquire_keeps s q at = ground (arith, get-put a s (fresh p a) p.values, list_beq_iff a s)

-- Calls one after the other
unfoldable pub acquire_all : List Text → StringPool → StringPool
unfolding acquire
acquire_all [] p = p
acquire_all (s ∷ texts) p = acquire_all texts (acquire s p).0

acquire_all_lem :
    (texts : List Text) (p : StringPool) (s : Text) (q : Pointer)
    → IsDistinct p
    → get_pointer s p ≡ some q
    → IsDistinct (acquire_all texts p) × (get_pointer s (acquire_all texts p) ≡ some q)
unfolding acquire_all
acquire_all_lem [] p s q h at = (h, at)
acquire_all_lem (t ∷ texts) p s q h at =
    acquire_all_lem texts (acquire t p).0 s q (acquire-IsDistinct t p h)
      (acquire_keeps t p h s q at)

pub both_stored :
    (p : StringPool) (a b : Text) (q r : Pointer)
    → IsDistinct p
    → get_pointer a p ≡ some q
    → get_pointer b p ≡ some r
    → (nat_beq q.address r.address ≡ list_beq a b) × (r.target ≡ b)
unfolding get_pointer
both_stored p a b q r h at at' = (
  Bool_ext (nat_beq q.address r.address) (list_beq a b)
      (λ e. ground (arith, h.injective a b q r, list_beq_iff a b))
      (λ e. ground (arith, list_beq_iff a b)),
  (h.points b r at').0,
)

-- In a pool whose texts have pointers of their own (a new pool is one, and every call keeps it
-- so), a pointer that a call returned has the address of one that a later call returns exactly if
-- the two texts are equal, whatever is acquired between them; and it points to its text.
pub addresses_identify :
    (p : StringPool) (a b : Text) (between : List Text)
    → IsDistinct p
    → let (p1, q) = acquire a p in
      let (p2, r) = acquire b (acquire_all between p1) in
      (nat_beq q.address r.address ≡ list_beq a b) × (r.target ≡ b)
addresses_identify p a b between h =
    let p1 = (acquire a p).0 in
    let (h', kept) =
      acquire_all_lem between p1 a (acquire a p).1 (acquire-IsDistinct a p h)
        (acquire_stored a p h) in
    let p2 = acquire_all between p1 in
    both_stored (acquire b p2).0 a b (acquire a p).1 (acquire b p2).1 (acquire-IsDistinct b p2 h')
      (acquire_keeps b p2 h' a (acquire a p).1 kept) (acquire_stored b p2 h')
