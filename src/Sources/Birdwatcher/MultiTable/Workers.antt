-- ===== src/Sources/Birdwatcher/MultiTable/Workers.antt =====
-- The workers that fetch the routes of all neighbors, whatever the order of their moves.
use mathlib.Core.Path.{subst}
use alice_lg.Common.{
  ℕ, zero, suc, ◌+◌, ◌≡◌, refl, ◌∙◌, Bool, Option, none, some, List, [], ◌∷◌, length, keep,
  keep-append, length-append, All, ltb, arith, Option-cases, Bool-cases, inl, inr,
}
use alice_lg.Common.Texts.{Text}
use alice_lg.Api.Route.{Route}
use alice_lg.Sources.Birdwatcher.{Protocol, Protocols}
use alice_lg.Sources.Birdwatcher.MultiTable.Dump.{
  Pool, Move, take, answer, Collected, collected, still_running, crashed, take_at, answered, move,
  ended, run,
}

-- The sum of a number over some protocols
abbrev pub total : (Text × Protocol → ℕ) → Protocols → ℕ
total g [] = 0
total g (p ∷ ps) = g p + total g ps

-- The number of the routes with a property
abbrev pub number : (Route → Bool) → List Route → ℕ
number q routes = length (keep q routes)

-- What the workers give has some number of routes with a property, if they have ended.
abbrev pub Holds : (Route → Bool) → ℕ → Collected → Type 0
Holds q n (collected rs) = number q rs ≡ n
Holds q n still_running = Unit
Holds q n crashed = Unit

module _ (work : Text × Protocol → Option (List Route)) (q : Route → Bool)
    (g : Text × Protocol → ℕ) where
  -- An answer to a request has as many routes with the property as is claimed.
  abbrev pub Gives : Text × Protocol → Type 0
  Gives p = (r : List Route) → work p ≡ some r → number q r ≡ g p

  -- The state after a move has the same routes, those to come included.
  abbrev Same : Pool → Pool → Type 0
  Same (queue, taken, results) (queue', taken', results') =
      (number q results' + total g taken' + total g queue'
        ≡ number q results + total g taken + total g queue)
      × All Gives queue'
      × All Gives taken'

  -- A taken request, and the others
  abbrev Took : Protocols → Option ((Text × Protocol) × Protocols) → Type 0
  Took ps none = Unit
  Took ps (some (p, rest)) = (total g ps ≡ g p + total g rest) × Gives p × All Gives rest

  take_later :
      (x : Text × Protocol) (ps : Protocols) (o : Option ((Text × Protocol) × Protocols))
      → Gives x
      → Took ps o
      → Took (x ∷ ps) (elim o [ none ↦ none | some (p, rest) ↦ some (p, x ∷ rest) ])
  take_later x ps none given h = tt
  take_later x ps (some (p, rest)) given (same, of_p, others) = (omega arith, of_p, (given, others))

  take_at_lem : (i : ℕ) (ps : Protocols) → All Gives ps → Took ps (take_at i ps)
  unfolding take_at
  take_at_lem i [] h = tt
  take_at_lem zero (x ∷ ps) h = (refl, h.0, h.1)
  take_at_lem (suc i) (x ∷ ps) h = take_later x ps (take_at i ps) h.0 (take_at_lem i ps h.1)

  -- The state after a move, unless it is a panic
  abbrev Kept : Pool → Option Pool → Type 0
  Kept pool none = Unit
  Kept pool (some next) = Same pool next

  answered_lem :
      (o : Option ((Text × Protocol) × Protocols)) (queue taken : Protocols) (results : List Route)
      → All Gives queue
      → All Gives taken
      → Took taken o
      → Kept (queue, taken, results) (answered work o (queue, taken, results))
  unfolding answered
  answered_lem none queue taken results hq ht h = (refl, hq, ht)
  answered_lem (some (p, rest)) queue taken results hq ht (same, of_p, others) =
      elim (Option-cases (work p)) [
        | inl stopped ↦ rw (answered, stopped) tt
        | inr (r, gave) ↦
            rw (answered, gave)
              (
                rw (keep-append q results r, length-append (keep q results) (keep q r))
                    (omega (arith, of_p r gave, same)),
                hq,
                others,
              )
      ]

  move_lem :
      (m : Move) (queue taken : Protocols) (results : List Route)
      → All Gives queue
      → All Gives taken
      → Kept (queue, taken, results) (move work m (queue, taken, results))
  unfolding move
  move_lem take [] taken results hq ht = (refl, tt, ht)
  move_lem take (p ∷ queue) taken results hq ht = elim (Bool-cases (ltb (length taken) 42)) [
    | inl free ↦ rw (move, free) (omega arith, hq.1, (hq.0, ht))
    | inr busy ↦ rw (move, busy) (refl, hq, ht)
  ]
  move_lem (answer i) queue taken results hq ht =
      answered_lem (take_at i taken) queue taken results hq ht (take_at_lem i taken ht)

  ended_lem :
      (queue taken : Protocols) (results : List Route)
      → Holds q (number q results + total g taken + total g queue) (ended (queue, taken, results))
  unfolding ended
  ended_lem [] [] results = omega arith
  ended_lem [] (p ∷ taken) results = tt
  ended_lem (p ∷ queue) taken results = tt

  -- The rest of a run, after a move
  next_lem :
      (moves : List Move) (n : ℕ) (pool : Pool) (o : Option Pool)
      → number q pool.2 + total g pool.1 + total g pool.0 ≡ n
      → Kept pool o
      → ((queue taken : Protocols) (results : List Route)
          → All Gives queue
          → All Gives taken
          → Holds q
              (number q results + total g taken + total g queue)
              (run work moves (queue, taken, results)))
      → Holds q n (elim o [ none ↦ crashed | some next ↦ run work moves next ])
  next_lem moves n pool none sum h rest = tt
  next_lem moves n pool (some (queue, taken, results)) sum (same, hq, ht) rest =
      subst (λ n. Holds q n (run work moves (queue, taken, results))) (same ∙ sum)
        (rest queue taken results hq ht)

  -- Whatever the moves are, once the workers have ended the routes are those collected before, and
  -- those that were to come.
  pub run_lem :
      (moves : List Move) (queue taken : Protocols) (results : List Route)
      → All Gives queue
      → All Gives taken
      → Holds q
          (number q results + total g taken + total g queue)
          (run work moves (queue, taken, results))
  unfolding run
  run_lem [] queue taken results hq ht = ended_lem queue taken results
  run_lem (m ∷ moves) queue taken results hq ht =
      next_lem moves _ (queue, taken, results) (move work m (queue, taken, results)) refl
        (move_lem m queue taken results hq ht) (run_lem moves)

  -- A run from the start
  pub run_all :
      (moves : List Move) (queue : Protocols)
      → All Gives queue
      → Holds q (total g queue) (run work moves (queue, [], []))
  unfolding keep
  run_all moves queue h =
      subst (λ n. Holds q n (run work moves (queue, [], []))) (omega arith)
        (run_lem moves queue [] [] h tt)
