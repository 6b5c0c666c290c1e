-- ===== src/Sources/Birdwatcher/MultiTable/Conservation.antt =====
-- The counts of accepted and filtered routes.
use alice_lg.Common.Assoc.{Assoc, get}
use alice_lg.Common.Texts.{Text, codes}
use alice_lg.Api.Neighbor.{Neighbor}
use alice_lg.Sources.Birdwatcher.{
  Outcome, done, failed, panicked, ◌>>=◌, Config, Protocols, filter_protocols,
}
use alice_lg.Sources.Birdwatcher.MultiTable.Counts.{
  Counter, parse_protocol_to_table_tree, count_tables, move_filtered, fetch_neighbors_pipe_master,
}
use alice_lg.Common.{
  nat_eq, list_eq, List, [], ◌∷◌, map, Option-cases, inl, inr, ℕ, ◌≡◌, refl, ◌∙◌, sym, ap, ◌+◌, ◌-◌,
  ◌%◌, ◌^◌, ◌<◌, arith,
}
use alice_lg.Common.Ints.{ℤ, pos, negsuc, wrap, signed, ◌+ℤ◌, ◌-ℤ◌}

-- The 64 low bits
abbrev low : ℤ → ℕ
low (pos n) = n % 2 ^ 64
low (negsuc n) = 2 ^ 64 - 1 - n % 2 ^ 64

low_lt : (z : ℤ) → low z < 2 ^ 64
low_lt (pos n) = omega arith
low_lt (negsuc n) = omega arith

wrap-low : (z : ℤ) → wrap z ≡ signed (low z)
unfolding wrap
wrap-low (pos n) = refl
wrap-low (negsuc n) = refl

low-wrap : (z : ℤ) → low (wrap z) ≡ low z
unfolding wrap
low-wrap (pos n) = ground arith
low-wrap (negsuc n) = ground arith

low-add : (a b : ℤ) → low (a +ℤ b) ≡ (low a + low b) % 2 ^ 64
unfolding ◌+ℤ◌
low-add (pos a) (pos b) = ground arith
low-add (pos a) (negsuc b) = ground arith
low-add (negsuc a) (pos b) = ground arith
low-add (negsuc a) (negsuc b) = ground arith

low-sub : (a b : ℤ) → low (a -ℤ b) ≡ (low a + (2 ^ 64 - low b)) % 2 ^ 64
unfolding ◌-ℤ◌
low-sub (pos a) (pos b) = ground arith
low-sub (pos a) (negsuc b) = ground arith
low-sub (negsuc a) (pos b) = ground arith
low-sub (negsuc a) (negsuc b) = ground arith

moved_mod :
    (a b f : ℕ)
    → a < 2 ^ 64
    → b < 2 ^ 64
    → f < 2 ^ 64
    → ((a + (2 ^ 64 - f)) % 2 ^ 64 + (b + f) % 2 ^ 64) % 2 ^ 64 ≡ (a + b) % 2 ^ 64
moved_mod a b f ha hb hf = omega arith

-- A count that is moved leaves the sum as it is, wrapped.
moved : (a b f : ℤ) → wrap (wrap (a -ℤ f) +ℤ wrap (b +ℤ f)) ≡ wrap (a +ℤ b)
moved a b f =
    let left : low (wrap (a -ℤ f) +ℤ wrap (b +ℤ f)) ≡ low (a +ℤ b) =
      rw
        (
          low-add (wrap (a -ℤ f)) (wrap (b +ℤ f)),
          low-wrap (a -ℤ f),
          low-wrap (b +ℤ f),
          low-sub a f,
          low-add b f,
          low-add a b,
        )
        (moved_mod (low a) (low b) (low f) (low_lt a) (low_lt b) (low_lt f)) in
    wrap-low (wrap (a -ℤ f) +ℤ wrap (b +ℤ f)) ∙ ap signed left ∙ sym (wrap-low (a +ℤ b))

done_inj : {A : Type 0} {a b : A} → done a ≡ done b → a ≡ b
done_inj h = cc

bind_done :
    {A B : Type 0} (x : Outcome A) (f : A → Outcome B) (b : B)
    → (x >>= f) ≡ done b
    → (a : A) × (x ≡ done a) × (f a ≡ done b)
bind_done (done a) f b h = (a, refl, h)
bind_done (failed e) f b h = cc
bind_done panicked f b h = cc

-- A neighbor is as it was, but that some routes are counted as filtered in place of accepted.
abbrev pub Moved : Neighbor → Neighbor → Type 0
Moved n before =
    (n ≡ record before { routes_accepted = n.routes_accepted; routes_filtered = n.routes_filtered })
    × (wrap (n.routes_accepted +ℤ n.routes_filtered)
        ≡ wrap (before.routes_accepted +ℤ before.routes_filtered))

abbrev pub AllMoved : List Neighbor → List Neighbor → Type 0
AllMoved [] [] = Unit
AllMoved (n ∷ ns) (m ∷ ms) = Moved n m × AllMoved ns ms
AllMoved _ _ = ⊥

move_filtered-Moved : (filtered : Assoc Text ℤ) (n : Neighbor) → Moved (move_filtered filtered n) n
unfolding move_filtered
move_filtered-Moved filtered n = elim (Option-cases (get n.id filtered)) [
  | inl none' ↦ rw (move_filtered, none') (refl, refl)
  | inr (f, found) ↦ rw (move_filtered, found) (refl, moved n.routes_accepted n.routes_filtered f)
]

all_moved :
    (filtered : Assoc Text ℤ) (ns : List Neighbor) → AllMoved (map (move_filtered filtered) ns) ns
all_moved filtered [] = tt
all_moved filtered (n ∷ ns) = (move_filtered-Moved filtered n, all_moved filtered ns)

-- The neighbors from the pipes are those that the protocols are parsed to, in their order; each has
-- what it had, but that some of its routes are counted as filtered in place of accepted: the sum of
-- the two is the same, up to the wrap-around of 64 bits.
pub fetch_neighbors_pipe_master-AllMoved :
    (config : Config) (counter : Counter) (protocols : Protocols)
    (parse : Protocols → Outcome (List Neighbor)) (ns parsed : List Neighbor)
    → parse (filter_protocols protocols (codes "BGP")) ≡ done parsed
    → fetch_neighbors_pipe_master config counter (done protocols) parse ≡ done ns
    → AllMoved ns parsed
unfolding fetch_neighbors_pipe_master
fetch_neighbors_pipe_master-AllMoved config counter protocols parse ns parsed reads h =
    let (ms, read, h') =
      bind_done (parse (filter_protocols protocols (codes "BGP")))
        (λ ms.
          count_tables config counter (filter_protocols protocols (codes "Pipe"))
            (parse_protocol_to_table_tree protocols []) []
          >>= λ filtered. done (map (move_filtered filtered) ms))
        ns h in
    let (filtered, counted, h'') =
      bind_done
        (count_tables config counter (filter_protocols protocols (codes "Pipe"))
          (parse_protocol_to_table_tree protocols []) [])
        (λ filtered. done (map (move_filtered filtered) ms)) ns h' in
    let same : ms ≡ parsed = done_inj (sym read ∙ reads) in
    rw (← done_inj h'', same) (all_moved filtered parsed)
