-- ===== src/Sources/OpenBgpd/Coherence.antt =====
-- What an OpenBGPD source answers, from its caches or from the server.
use alice_lg.Common.{
  ◌≡◌, refl, ap, not, List, [], ◌∷◌, length, keep, nat_eq, list_eq, arith, Option-cases, ◌⊎◌, inl,
  inr,
}
use alice_lg.Common.Assoc
use alice_lg.Common.Assoc.{get-put, get-delete, put, delete}
use alice_lg.Common.Ints.{ℤ, pos}
use alice_lg.Common.Texts.{Text}
use alice_lg.Api.Community.{Community}
use alice_lg.Api.Neighbor.{Neighbor}
use alice_lg.Api.Route.{Route, RoutesResponse}
use alice_lg.Caches.Neighbors as Single
use alice_lg.Caches.Neighbors.{Response, NeighborsCache, expired}
use alice_lg.Caches.Routes
use alice_lg.Caches.Routes.{RoutesCache, lru, make_room}
use alice_lg.Caches.Routes.Contents.{Contents, get-Contents, get_hit, set-Contents}
use alice_lg.Sources.Answers.{Answer, answer, failed}
use alice_lg.Sources.OpenBgpd.{
  Config, Source, new_source, is_rejected, filter_received_routes, filter_rejected_routes, respond,
  both_parts, received_part, filtered_part, through_cache, routes, routes_received, routes_filtered,
}

-- The two filters split the routes.
pub filter_received_lem :
    (reject : List Community) (rs : List Route)
    → filter_received_routes reject rs ≡ keep (λ r. not (is_rejected reject r)) rs
unfolding filter_received_routes keep
filter_received_lem reject [] = refl
filter_received_lem reject (r ∷ rs) = ground (arith, filter_received_lem reject rs)

pub filter_rejected_lem :
    (reject : List Community) (rs : List Route)
    → filter_rejected_routes reject rs ≡ keep (is_rejected reject) rs
unfolding filter_rejected_routes keep
filter_rejected_lem reject [] = refl
filter_rejected_lem reject (r ∷ rs) = ground (arith, filter_rejected_lem reject rs)

-- Every response in a cache was made from the routes of its neighbor.
abbrev pub Holds : {A : Type 0} → RoutesCache A → (Text → A) → Type 0
Holds cache made = Contents (λ id content. content ≡ made id) cache

-- What a cached call answers: what it makes of the routes of the neighbor, or the server's error
abbrev pub Answers : Answer RoutesResponse → Answer (List Route) → RoutesResponse → Type 0
Answers res rib made = (res ≡ answer made) ⊎ ((e : Text) × (rib ≡ failed e) × (res ≡ failed e))

module _ (cfg : Config) (part : Config → List Route → RoutesResponse) (ribs : Text → List Route)
    (cache : RoutesCache RoutesResponse) (id : Text) (now later : ℤ)
    (held : Holds cache (λ i. part cfg (ribs i))) where
  through_cache_lem :
      (rib : Answer (List Route))
      → ((rib ≡ answer (ribs id)) ⊎ ((e : Text) × (rib ≡ failed e)))
      → Holds (through_cache cfg part cache id rib now later).0 (λ i. part cfg (ribs i))
        × Answers (through_cache cfg part cache id rib now later).1 rib (part cfg (ribs id))
  unfolding through_cache
  through_cache_lem rib given =
      let made : Text → RoutesResponse → Type 0 = λ i content. content ≡ part cfg (ribs i) in
      elim (Option-cases (Routes.get cache id now).1) [
        | inr (r, hit) ↦
            rw (through_cache, hit)
              (
                get-Contents made cache id now held,
                inl (ap answer (get_hit made cache id now r held hit)),
              )
        | inl miss ↦ elim given [
          | inr (e, fails) ↦
              rw (through_cache, miss, fails)
                (get-Contents made cache id now held, inr (e, refl, refl))
          | inl gives ↦
              rw (through_cache, miss, gives)
                (
                  set-Contents made (Routes.get cache id now).0 id
                      (respond cfg (part cfg (ribs id)) later) later refl
                      (get-Contents made cache id now held),
                  inl refl,
                )
        ]
      ]

-- The routes of each neighbor, split
abbrev pub received_of : Source → List Route → List Route
received_of src = keep (λ r. not (is_rejected src.cfg.reject_communities r))

abbrev pub rejected_of : Source → List Route → List Route
rejected_of src = keep (is_rejected src.cfg.reject_communities)

-- A source whose cached responses were all made from the same routes of the neighbors
pub record IsCoherent (src : Source) (ribs : Text → List Route) : Type 0 where
  pub both : Holds src.routes_cache (λ id. both_parts src.cfg (ribs id))
  pub received : Holds src.routes_received_cache (λ id. received_part src.cfg (ribs id))
  pub filtered : Holds src.routes_filtered_cache (λ id. filtered_part src.cfg (ribs id))

pub new_source-IsCoherent :
    (cfg : Config) (ribs : Text → List Route) → IsCoherent (new_source cfg) ribs
unfolding new_source Routes.new_routes_cache Assoc.get
new_source-IsCoherent cfg ribs = record {
  both = λ id r found. cc;
  received = λ id r found. cc;
  filtered = λ id r found. cc;
}

module _ (src : Source) (ribs : Text → List Route) (id : Text) (rib : Answer (List Route))
    (now later : ℤ) where
  -- While the routes of the neighbors do not change, a source answers every request for the routes
  -- of a neighbor, from its caches or from the server, with the same split of these routes: those
  -- without a reject community are imported, the others filtered, none is lost, and the
  -- requests for one part agree with the request for both. Only where the server fails on a request
  -- that no cache answers, its error is the answer. This holds again afterwards.
  pub routes-IsCoherent :
      IsCoherent src ribs
      → ((rib ≡ answer (ribs id)) ⊎ ((e : Text) × (rib ≡ failed e)))
      → let imported = received_of src (ribs id) in
        let filtered = rejected_of src (ribs id) in
        (IsCoherent (routes src id rib now later).0 ribs
          × Answers
              (routes src id rib now later).1
              rib
              (record { imported = imported; not_exported = []; filtered = filtered }))
        × (IsCoherent (routes_received src id rib now later).0 ribs
            × Answers
                (routes_received src id rib now later).1
                rib
                (record { imported = imported; not_exported = []; filtered = [] }))
        × (IsCoherent (routes_filtered src id rib now later).0 ribs
            × Answers
                (routes_filtered src id rib now later).1
                rib
                (record { imported = []; not_exported = []; filtered = filtered }))
  unfolding routes routes_received routes_filtered
  routes-IsCoherent c given =
      rw
        (
          ← filter_received_lem src.cfg.reject_communities (ribs id),
          ← filter_rejected_lem src.cfg.reject_communities (ribs id),
        )
        (let b =
            through_cache_lem src.cfg both_parts ribs src.routes_cache id now later c.both rib
              given in
          let r =
            through_cache_lem src.cfg received_part ribs src.routes_received_cache id now later
              c.received rib given in
          let f =
            through_cache_lem src.cfg filtered_part ribs src.routes_filtered_cache id now later
              c.filtered rib given in
          (
            (record { both = b.0; received = c.received; filtered = c.filtered }, b.1),
            (record { both = c.both; received = r.0; filtered = c.filtered }, r.1),
            (record { both = c.both; received = c.received; filtered = f.0 }, f.1),
          ))

-- The neighbors with the id of the source and their counts of filtered routes
abbrev pub counted : Source → (Text → List Route) → Neighbor → Neighbor
counted src ribs n = record n {
  route_server_id = src.cfg.id;
  routes_filtered = pos (length (rejected_of src (ribs n.id)));
}
