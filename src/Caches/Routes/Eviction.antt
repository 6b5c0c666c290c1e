-- ===== src/Caches/Routes/Eviction.antt =====
-- The bound on the number of responses.
use alice_lg.Common.{
  ℕ, ◌+◌, ◌≤◌, ◌≡◌, ap, true, false, none, length, nat_eq, list_eq, if◌then◌else◌, arith,
  Option-cases, Bool-cases, inl, inr, All, ◌↔◌,
}
use alice_lg.Common.Assoc
use alice_lg.Common.Assoc.{
  Assoc, put, delete, get-put, get-delete, get-put_self, All-put, All-delete, delete_absent,
  length-put, length-delete, length-delete-le,
}
use alice_lg.Common.Ints.{ℤ, pos, ltb_ℤ}
use alice_lg.Common.Texts.{Text}
use alice_lg.Caches.Neighbors.{Response}
use alice_lg.Caches.Routes.{RoutesCache, lru, make_room, set}
use alice_lg.Caches.Routes.Recency.{
  Known, Past, later-Past, SameKeys, evicts, same-delete, same-put,
}

-- The two maps have the same keys, every access lies before the clock's next reading, and there
-- is at most one response more than the size.
pub record IsConsistent {A : Type 0} (n : ℕ) (now : ℤ) (c : RoutesCache A) : Type 0 where
  pub sized : c.size ≡ pos n
  pub same_keys : (k : Text) → (Assoc.get k c.responses ≡ none) ↔ (Assoc.get k c.accessed_at ≡ none)
  pub past : All (λ (x : Text × ℤ). ltb_ℤ x.1 now ≡ true) c.accessed_at
  pub bounded : length c.responses ≤ n + 1

module _ {A : Type 0} {n : ℕ} {now : ℤ} (c : RoutesCache A) (h : IsConsistent n now c) where
  evicted :
      ltb_ℤ c.size (pos (length c.responses)) ≡ true → Known (lru now c.accessed_at) c.responses
  evicted full =
      evicts now c.responses c.accessed_at (ground (arith, full, h.sized)) h.same_keys h.past

  make_room_bounded : length (make_room c now).responses ≤ n
  unfolding make_room
  make_room_bounded = elim (Bool-cases (ltb_ℤ c.size (pos (length c.responses)))) [
    | inl full ↦
        let (r, at) = evicted full in
        rw full (omega (arith, h.bounded, length-delete (lru now c.accessed_at) r c.responses at))
    | inr room ↦ rw room (ground (arith, h.sized))
  ]

  make_room_same : SameKeys (make_room c now).responses (make_room c now).accessed_at
  unfolding make_room
  make_room_same = elim (Bool-cases (ltb_ℤ c.size (pos (length c.responses)))) [
    | inl full ↦ rw full (same-delete (lru now c.accessed_at) c.responses c.accessed_at h.same_keys)
    | inr room ↦ rw room h.same_keys
  ]

  make_room-Past : Past now (make_room c now).accessed_at
  unfolding make_room
  make_room-Past = elim (Bool-cases (ltb_ℤ c.size (pos (length c.responses)))) [
    | inl full ↦
        rw full (All-delete (λ v. ltb_ℤ v now ≡ true) (lru now c.accessed_at) c.accessed_at h.past)
    | inr room ↦ rw room h.past
  ]

  make_room_sized : (make_room c now).size ≡ pos n
  unfolding make_room
  make_room_sized = elim (Bool-cases (ltb_ℤ c.size (pos (length c.responses)))) [
    | inl full ↦ rw full h.sized
    | inr room ↦ rw room h.sized
  ]

put_bound : {V : Type 0} (k : Text) (v : V) (m : Assoc Text V) → length (put k v m) ≤ length m + 1
put_bound k v m = elim (Option-cases (Assoc.get k m)) [
  | inl missing ↦ rw (length-put k v m) (rw missing (omega arith))
  | inr (w, at) ↦ rw (length-put k v m) (rw at (omega arith))
]

-- What a write leaves: an entry in each map, over the cache after the eviction
abbrev pub written : {A : Type 0} → RoutesCache A → Text → Response A → ℤ → RoutesCache A
written room id r now = record room {
  accessed_at = put id now room.accessed_at;
  responses = put id r room.responses;
}

pub set_off :
    {A : Type 0} (c : RoutesCache A) (id : Text) (r : Response A) (now : ℤ)
    → c.disabled ≡ true
    → set c id r now ≡ c
unfolding set
set_off c id r now off = ap (λ b. if b then c else written (make_room c now) id r now) off

pub set_on :
    {A : Type 0} (c : RoutesCache A) (id : Text) (r : Response A) (now : ℤ)
    → c.disabled ≡ false
    → set c id r now ≡ written (make_room c now) id r now
unfolding set
set_on c id r now on = ap (λ b. if b then c else written (make_room c now) id r now) on

-- Where no `Expire` runs, a write at the clock's reading keeps the two maps of a cache on the
-- same keys, its access times behind the next reading, and at most one response more than the
-- size: in a full cache the eviction finds a response.
pub set-IsConsistent :
    {A : Type 0} (n : ℕ) (now later : ℤ) (c : RoutesCache A) (id : Text) (r : Response A)
    → ltb_ℤ now later ≡ true
    → IsConsistent n now c
    → IsConsistent n later (set c id r now)
set-IsConsistent n now later c id r after h = elim (Bool-cases c.disabled) [
  | inl off ↦ rw (set_off c id r now off) (record {
    sized = h.sized;
    same_keys = h.same_keys;
    bounded = h.bounded;
    past = later-Past now later c.accessed_at after h.past;
  })
  | inr on ↦ rw (set_on c id r now on) (record {
    sized = make_room_sized c h;
    same_keys =
        same-put id r now (make_room c now).responses (make_room c now).accessed_at
          (make_room_same c h);
    bounded = omega (arith, make_room_bounded c h, put_bound id r (make_room c now).responses);
    past =
        All-put (λ v. ltb_ℤ v later ≡ true) id now (make_room c now).accessed_at after
          (later-Past now later (make_room c now).accessed_at after (make_room-Past c h));
  })
]
