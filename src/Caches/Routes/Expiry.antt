-- ===== src/Caches/Routes/Expiry.antt =====
-- What an expiry deletes.
use alice_lg.Common.{
  ◌≡◌, refl, ◌∙◌, ap, Bool, false, Option, none, some, List, [], ◌∷◌, any, nat_eq, list_eq,
  list_beq, list_beq_iff, if◌then◌else◌, arith,
}
use alice_lg.Common.Assoc
use alice_lg.Common.Assoc.{Assoc, get-delete}
use alice_lg.Common.Ints.{ℤ}
use alice_lg.Common.Texts.{Text}
use alice_lg.Caches.Neighbors.{Response, expired}
use alice_lg.Caches.Routes.{RoutesCache, expired_keys, delete_all, expire}

abbrev among : Text → List Text → Bool
among id keys = any (λ k. list_beq k id) keys

module _ {A : Type 0} where
  -- No key stands twice in a map.
  abbrev pub IsMap : Assoc Text (Response A) → Type 0
  IsMap [] = Unit
  IsMap ((k, _) ∷ m) = (Assoc.get k m ≡ none) × IsMap m

  -- A response that has expired counts as none.
  abbrev pub unless_expired : ℤ → Option (Response A) → Option (Response A)
  unless_expired now none = none
  unless_expired now (some r) = if expired r now then none else some r

  abbrev has_expired : ℤ → Option (Response A) → Bool
  has_expired now none = false
  has_expired now (some r) = expired r now

  get-delete_all :
      (keys : List Text) (m : Assoc Text (Response A)) (id : Text)
      → Assoc.get id (delete_all keys m) ≡ (if among id keys then none else Assoc.get id m)
  unfolding delete_all any
  get-delete_all [] m id = refl
  get-delete_all (k ∷ keys) m id =
      get-delete_all keys (Assoc.delete k m) id ∙ ground (arith, get-delete k id m)

  among-expired_keys :
      (m : Assoc Text (Response A)) (now : ℤ) (id : Text)
      → IsMap m
      → among id (expired_keys m now) ≡ has_expired now (Assoc.get id m)
  unfolding expired_keys any Assoc.get
  among-expired_keys [] now id h = refl
  among-expired_keys ((k, r) ∷ m) now id (alone, h) =
      ground (arith, list_beq_iff k id, alone, among-expired_keys m now id h)

  remaining_lem :
      (o : Option (Response A)) (now : ℤ)
      → (if has_expired now o then none else o) ≡ unless_expired now o
  remaining_lem none now = refl
  remaining_lem (some r) now = refl

  -- An expiry of a cache whose responses are a map deletes exactly the expired responses; the access
  -- times stay as they are, those of the deleted responses too.
  pub expire_exact :
      (c : RoutesCache A) (now : ℤ) (id : Text)
      → IsMap c.responses
      → (Assoc.get id (expire c now).0.responses ≡ unless_expired now (Assoc.get id c.responses))
        × ((expire c now).0.accessed_at ≡ c.accessed_at)
  unfolding expire
  expire_exact c now id h = (
    get-delete_all (expired_keys c.responses now) c.responses id
        ∙ ap (λ b. if b then none else Assoc.get id c.responses)
            (among-expired_keys c.responses now id h)
        ∙ remaining_lem (Assoc.get id c.responses) now,
    refl,
  )
