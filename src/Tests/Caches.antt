-- ===== src/Tests/Caches.antt =====
-- The caches of pkg/caches at concrete inputs.
use alice_lg.Common.{
  none, ◌≡◌, refl, ℕ, [], ◌∷◌, false, length, arith, nat_eq, list_eq, list_beq, Bool-cases, inl,
  inr,
}
use alice_lg.Common.Assoc.{put, delete, get}
use alice_lg.Common.Ints.{ℤ, pos}
use alice_lg.Common.Texts.{codes}
use alice_lg.Caches.Neighbors.{Response}
use alice_lg.Caches.Routes.{
  RoutesCache, set, lru, lru_from, make_room, expire, expired_keys, delete_all, new_routes_cache,
}
use alice_lg.Caches.Routes.Expiry.{expire_exact}
use alice_lg.Caches.Routes.Eviction.{IsConsistent, set-IsConsistent}

abbrev response : ℤ → Response ℕ
response ttl = record { ttl = ttl; content = 1 }

abbrev full_cache : RoutesCache ℕ
full_cache = record {
  responses = (codes "n1", response (pos 9)) ∷ [];
  accessed_at = (codes "n1", pos 0) ∷ [];
  disabled = false;
  size = pos 0;
}

full-IsConsistent : IsConsistent 0 (pos 1) full_cache
unfolding get
full-IsConsistent = record {
  sized = refl;
  same_keys = λ k. elim (Bool-cases (list_beq (codes "n1") k)) [
    | inl same ↦ rw same ((λ e. cc e), (λ e. cc e))
    | inr other ↦ rw other ((λ e. refl), (λ e. refl))
  ];
  past = (refl, tt);
  bounded = omega arith;
}

set-IsConsistent_example :
    IsConsistent 0 (pos 2) (set full_cache (codes "n2") (response (pos 9)) (pos 1))
set-IsConsistent_example =
    set-IsConsistent 0 (pos 1) (pos 2) full_cache (codes "n2") (response (pos 9)) refl
      full-IsConsistent

-- A cache of size 1 with two responses, of which the first one expires; after that, two more are
-- written, and three responses stay.
abbrev written_once : RoutesCache ℕ
written_once =
    set (set (new_routes_cache false (pos 1)) (codes "n1") (response (pos 5)) (pos 1)) (codes "n2")
      (response (pos 99)) (pos 2)

abbrev written_again : RoutesCache ℕ
written_again =
    set (set (expire written_once (pos 9)).0 (codes "n3") (response (pos 99)) (pos 10)) (codes "n4")
      (response (pos 99)) (pos 11)

expired_responses_grow : length written_again.responses ≡ 3
unfolding set make_room expire expired_keys delete_all delete lru lru_from put new_routes_cache
expired_responses_grow = refl

expire_exact_example :
    (get (codes "n1") (expire written_once (pos 9)).0.responses ≡ none)
    × ((expire written_once (pos 9)).0.accessed_at ≡ written_once.accessed_at)
unfolding set make_room lru lru_from put new_routes_cache get
expire_exact_example = expire_exact written_once (pos 9) (codes "n1") (refl, (refl, tt))
