-- ===== src/Caches/Routes/Contents.antt =====
-- A property of the responses in a routes cache.
use alice_lg.Common.{
  ◌≡◌, some, nat_eq, list_eq, list_beq, list_beq_iff, arith, Option-cases, Bool-cases, inl, inr,
}
use mathlib.Core.Path.{subst}
use alice_lg.Common.Assoc
use alice_lg.Common.Assoc.{get-put, get-delete, put, delete}
use alice_lg.Common.Ints.{ℤ}
use alice_lg.Common.Texts.{Text}
use alice_lg.Caches.Neighbors.{Response}
use alice_lg.Caches.Routes
use alice_lg.Caches.Routes.{RoutesCache, lru, make_room}
use alice_lg.Caches.Routes.Eviction.{set_on, set_off}

-- Every response in a cache has the property, with its key.
abbrev pub Contents : {A : Type 0} → (Text → A → Type 0) → RoutesCache A → Type 0
Contents {A} P cache =
    (id : Text) (r : Response A) → Assoc.get id cache.responses ≡ some r → P id r.content

module _ {A : Type 0} (P : Text → A → Type 0) where
  pub get-Contents :
      (cache : RoutesCache A) (id : Text) (now : ℤ)
      → Contents P cache
      → Contents P (Routes.get cache id now).0
  unfolding Routes.get
  get-Contents cache id now h j r at = elim (Bool-cases cache.disabled) [
    | inl off ↦ h j r (ground (arith, off, at))
    | inr on ↦ elim (Option-cases (Assoc.get id cache.responses)) [
      | inl missing ↦ h j r (ground (arith, on, missing, at))
      | inr (x, found) ↦ h j r (ground (arith, on, found, at))
    ]
  ]

  pub get_hit :
      (cache : RoutesCache A) (id : Text) (now : ℤ) (r : Response A)
      → Contents P cache
      → (Routes.get cache id now).1 ≡ some r
      → P id r.content
  unfolding Routes.get
  get_hit cache id now r h hit = h id r (ground (arith, hit))

  make_room-Contents :
      (cache : RoutesCache A) (now : ℤ) → Contents P cache → Contents P (make_room cache now)
  unfolding make_room
  make_room-Contents cache now h j r at =
      h j r (ground (arith, at, get-delete (lru now cache.accessed_at) j cache.responses))

  put-Contents :
      (m : Assoc.Assoc Text (Response A)) (id : Text) (r : Response A)
      → P id r.content
      → ((j : Text) (x : Response A) → Assoc.get j m ≡ some x → P j x.content)
      → (j : Text) (x : Response A) → Assoc.get j (put id r m) ≡ some x
      → P j x.content
  put-Contents m id r fresh h j x at = elim (Bool-cases (list_beq id j)) [
    | inl same ↦
        let key : id ≡ j = (list_beq_iff id j).0 same in
        let written : r ≡ x = ground (arith, at, get-put id j r m, same) in
        subst (λ k. P k x.content) key (subst (λ (y : Response A). P id y.content) written fresh)
    | inr other ↦ h j x (ground (arith, at, get-put id j r m, other))
  ]

  pub set-Contents :
      (cache : RoutesCache A) (id : Text) (r : Response A) (now : ℤ)
      → P id r.content
      → Contents P cache
      → Contents P (Routes.set cache id r now)
  set-Contents cache id r now fresh h j x found = elim (Bool-cases cache.disabled) [
    | inl off ↦ h j x (rw (set_off cache id r now off) at found)
    | inr on ↦
        put-Contents (make_room cache now).responses id r fresh (make_room-Contents cache now h) j x
          (rw (set_on cache id r now on) at found)
  ]
