-- ===== src/Sources/Birdwatcher/Split.antt =====
-- The deduplication of the routes of a neighbor.
use alice_lg.Common.{
  ◌≡◌, refl, ◌∙◌, Bool, true, false, ◌&&◌, ◌||◌, not, Option, none, some, List, [], ◌∷◌, map, any,
  All, nat_eq, list_eq, list_beq, arith, Bool-cases, inl, inr,
}
use alice_lg.Common.Assoc.{Assoc, get, put, delete, get-put, get-delete}
use alice_lg.Common.Texts.{Text}
use alice_lg.Api.Route.{Route}
use alice_lg.Sources.Birdwatcher.{
  is_chosen, choose_routes, map_routes, remove_routes, filter_routes_by_peer_or_learnt_from,
  filter_routes_by_duplicates, deduplicate,
}

-- A route of a network
abbrev pub is_on : Text → Route → Bool
is_on network r = list_beq r.network network

abbrev values : Assoc Text Route → List Route
values = map (λ (e : Text × Route). e.1)

abbrev has : Text → Assoc Text Route → Bool
has k m = elim (get k m) [ none ↦ false | some _ ↦ true ]

-- The keys are the networks.
abbrev Keyed : Assoc Text Route → Type 0
Keyed = All (λ (e : Text × Route). e.0 ≡ e.1.network)

any-values : (k : Text) (m : Assoc Text Route) → Keyed m → any (is_on k) (values m) ≡ has k m
unfolding any get
any-values k [] h = refl
any-values k ((j, r) ∷ m) (same, h) = rw (← same) (ground (arith, any-values k m h))

put-Keyed : (r : Route) (m : Assoc Text Route) → Keyed m → Keyed (put r.network r m)
unfolding put
put-Keyed r [] h = (refl, tt)
put-Keyed r ((j, s) ∷ m) h = elim (Bool-cases (list_beq j r.network)) [
  | inl same ↦ rw same (refl, h.1)
  | inr other ↦ rw other (h.0, put-Keyed r m h.1)
]

delete-Keyed : (k : Text) (m : Assoc Text Route) → Keyed m → Keyed (delete k m)
unfolding delete
delete-Keyed k [] h = tt
delete-Keyed k ((j, s) ∷ m) h = elim (Bool-cases (list_beq j k)) [
  | inl same ↦ rw same (delete-Keyed k m h.1)
  | inr other ↦ rw other (h.0, delete-Keyed k m h.1)
]

has-put :
    (k : Text) (r : Route) (m : Assoc Text Route)
    → has k (put r.network r m) ≡ (is_on k r || has k m)
has-put k r m = ground (arith, get-put r.network k r m)

has-delete :
    (k j : Text) (m : Assoc Text Route) → has k (delete j m) ≡ (not (list_beq j k) && has k m)
has-delete k j m = ground (arith, get-delete j k m)

map_routes_lem :
    (rs : List Route) (m : Assoc Text Route)
    → Keyed m
    → Keyed (map_routes rs m)
      × ((k : Text) → has k (map_routes rs m) ≡ (any (is_on k) rs || has k m))
unfolding map_routes any
map_routes_lem [] m h = (h, λ k. refl)
map_routes_lem (r ∷ rs) m h =
    let (keyed, exact) = map_routes_lem rs (put r.network r m) (put-Keyed r m h) in
    (keyed, λ k. ground (arith, exact k, has-put k r m))

remove_routes_lem :
    (fs : List Route) (m : Assoc Text Route)
    → Keyed m
    → Keyed (remove_routes fs m)
      × ((k : Text) → has k (remove_routes fs m) ≡ (not (any (is_on k) fs) && has k m))
unfolding remove_routes any
remove_routes_lem [] m h = (h, λ k. refl)
remove_routes_lem (f ∷ fs) m h =
    let (keyed, exact) = remove_routes_lem fs (delete f.network m) (delete-Keyed f.network m h) in
    (keyed, λ k. ground (arith, exact k, has-delete k f.network m))

-- Every value of a map is one of the routes that were put into it.
module _ (p : Route → Bool) where
  any-put :
      (k : Text) (r : Route) (m : Assoc Text Route)
      → any p (values (put k r m)) ≡ true
      → (p r || any p (values m)) ≡ true
  unfolding any put
  any-put k r [] h = ground (arith, h)
  any-put k r ((j, s) ∷ m) h = ground (arith, h, any-put k r m)

  any-delete :
      (k : Text) (m : Assoc Text Route)
      → any p (values (delete k m)) ≡ true
      → any p (values m) ≡ true
  unfolding any delete
  any-delete k [] h = h
  any-delete k ((j, s) ∷ m) h = ground (arith, h, any-delete k m)

  any-map_routes :
      (rs : List Route) (m : Assoc Text Route)
      → any p (values (map_routes rs m)) ≡ true
      → (any p rs || any p (values m)) ≡ true
  unfolding any map_routes
  any-map_routes [] m h = h
  any-map_routes (r ∷ rs) m h =
      ground (arith, any-map_routes rs (put r.network r m) h, any-put r.network r m)

  any-remove_routes :
      (fs : List Route) (m : Assoc Text Route)
      → any p (values (remove_routes fs m)) ≡ true
      → any p (values m) ≡ true
  unfolding remove_routes
  any-remove_routes [] m h = h
  any-remove_routes (f ∷ fs) m h =
      any-delete f.network m (any-remove_routes fs (delete f.network m) h)

  any-choose :
      (peer learnt_from : Option Text) (rs : List Route)
      → any p (choose_routes peer learnt_from rs)
        ≡ any (λ r. is_chosen peer learnt_from r && p r) rs
  unfolding any choose_routes
  any-choose peer learnt_from [] = refl
  any-choose peer learnt_from (r ∷ rs) = ground (arith, any-choose peer learnt_from rs)

module _ (sort : List Route → List Route)
    (same_routes : (p : Route → Bool) (l : List Route) → any p (sort l) ≡ any p l) where
  duplicates_lem :
      (k : Text) (rs fs : List Route)
      → any (is_on k) (filter_routes_by_duplicates sort rs fs)
        ≡ (any (is_on k) rs && not (any (is_on k) fs))
  unfolding filter_routes_by_duplicates get
  duplicates_lem k rs fs =
      let (keyed, exact) = map_routes_lem rs [] tt in
      let (keyed', exact') = remove_routes_lem fs (map_routes rs []) keyed in
      rw
        (
          same_routes (is_on k) (values (remove_routes fs (map_routes rs []))),
          any-values k (remove_routes fs (map_routes rs [])) keyed',
        )
        (ground (arith, exact k, exact' k))

  sound :
      (p : Route → Bool) (rs fs : List Route)
      → (any p (filter_routes_by_duplicates sort rs fs) && not (any p rs)) ≡ false
  unfolding filter_routes_by_duplicates any
  sound p rs fs =
      let left = remove_routes fs (map_routes rs []) in
      rw (same_routes p (values left)) (elim (Bool-cases (any p (values left))) [
        | inr no' ↦ rw no' refl
        | inl yes' ↦
            ground
              (arith, yes', any-map_routes p rs [] (any-remove_routes p fs (map_routes rs []) yes'))
      ])

  -- Of the routes received from a neighbor (of which there is one) and those filtered on its
  -- tables, the response has as filtered exactly those of the neighbor, by the gateway or the peer
  -- that the first received route was learnt from; a network has an imported route exactly if it has a
  -- received and no such filtered one; and each imported route is a received one.
  pub deduplicate_exact :
      (first : Route) (received filtered : List Route) (k : Text) (p : Route → Bool)
      → let res = deduplicate sort (first ∷ received) filtered in
        (any p res.filtered
          ≡ any (λ r. is_chosen (some first.gateway) first.learnt_from r && p r) filtered)
        × (any (is_on k) res.imported
            ≡ (any (is_on k) (first ∷ received) && not (any (is_on k) res.filtered)))
        × ((any p res.imported && not (any p (first ∷ received))) ≡ false)
  unfolding deduplicate filter_routes_by_peer_or_learnt_from
  deduplicate_exact first received filtered k p =
      let chosen =
        filter_routes_by_peer_or_learnt_from sort filtered (some first.gateway) first.learnt_from in
      (
        same_routes p _ ∙ any-choose p (some first.gateway) first.learnt_from filtered,
        duplicates_lem k (first ∷ received) chosen,
        sound p (first ∷ received) chosen,
      )
