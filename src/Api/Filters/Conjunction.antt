-- ===== src/Api/Filters/Conjunction.antt =====
-- What a combined group matches.
use alice_lg.Common.{
  ◌≡◌, refl, Bool, true, false, ◌&&◌, ◌||◌, Option, none, some, List, [], ◌∷◌, ◌++◌, length, any,
  all, All-append, ◌+◌, ℕ, nat_beq, nat_eq, list_eq, if◌then◌else◌, arith, all-append, any-append,
}
use alice_lg.Common.Texts.{Text}
use alice_lg.Common.Assoc.{Assoc, put}
use alice_lg.Common.Ints.{int_eq}
use alice_lg.Api.Community.{part_eq}
use alice_lg.Api.Filters.Value.{Filter, FilterValue}
use alice_lg.Api.Filters.Kinds.{Kind, IsOf, Uniform, Implied, all_values, any_value, find_in_lem}
use alice_lg.Api.Filters.Group.{Group, find_in, rebuild_index, index_from}
use alice_lg.Api.Filters.Combine.{add_missing, combine_group, is_found}
use alice_lg.Api.Filters.Match.{
  Filterable, Comparator, select_cmp_func_by_key, some_matches, every_matches, match_any, match_all,
}

-- What a test on values says of a list with the filters of two others.
record Joins (out own fs : List Filter) : Type 0 where
  every : (p : FilterValue → Bool) → all_values p out ≡ (all_values p own && all_values p fs)
  one : (p : FilterValue → Bool) → any_value p out ≡ (any_value p own || any_value p fs)

module _ (k : Kind) where
  add_missing_lem :
      (own fs : List Filter)
      → Uniform k own
      → Uniform k fs
      → (out : List Filter) × (add_missing own fs ≡ some out) × Uniform k out × Joins out own fs
  unfolding add_missing all any
  add_missing_lem own [] h hs =
      (own, refl, h, record { every = λ p. ground arith; one = λ p. ground arith })
  add_missing_lem own (f ∷ fs) h (hf, hs) =
      let (found, searched, implied) = find_in_lem k f hf.kind own h in
      step found searched implied (add_missing_lem own fs h hs)
        (add_missing_lem (own ++ f ∷ []) fs (All-append (IsOf k) own (f ∷ []) h (hf, tt)) hs)
    where
      step :
          (found : Option Filter)
          → find_in own f ≡ some found
          → (is_found found ≡ true → Implied own f)
          → ((out : List Filter) × (add_missing own fs ≡ some out)
              × Uniform k out
              × Joins out own fs)
          → ((out : List Filter) × (add_missing (own ++ f ∷ []) fs ≡ some out)
              × Uniform k out
              × Joins out (own ++ f ∷ []) fs)
          → (out : List Filter) × (add_missing own (f ∷ fs) ≡ some out)
            × Uniform k out
            × Joins out own (f ∷ fs)
      step (some g) searched implied (out, run, u, j) _ = (
        out,
        rw searched run,
        u,
        record {
          every = λ p. ground (arith, j.every p, implied refl p);
          one = λ p. ground (arith, j.one p, implied refl p);
        },
      )
      step none searched implied _ (out, run, u, j) = (
        out,
        rw searched run,
        u,
        record {
          every =
              λ p. ground (arith, j.every p, all-append (λ (g : Filter). p g.value) own (f ∷ []));
          one = λ p. ground (arith, j.one p, any-append (λ (g : Filter). p g.value) own (f ∷ []));
        },
      )

  index_from_total :
      (i : ℕ) (fs : List Filter) (idx : Assoc Text ℕ)
      → Uniform k fs
      → (idx' : Assoc Text ℕ) × (index_from i fs idx ≡ some idx')
  unfolding index_from
  index_from_total i [] idx h = (idx, refl)
  index_from_total i (f ∷ fs) idx (hf, hs) =
      let (idx', run) = index_from_total (i + 1) fs (put hf.ref i idx) hs in
      (idx', rw hf.printed run)

empty_test : (fs : List Filter) → nat_beq (length fs) 0 ≡ all_values (λ v. false) fs
unfolding all
empty_test [] = refl
empty_test (f ∷ fs) = ground arith

any_empty :
    (p : FilterValue → Bool) (fs : List Filter)
    → nat_beq (length fs) 0 ≡ true
    → any_value p fs ≡ false
unfolding any
any_empty p [] h = refl
any_empty p (f ∷ fs) h = ground arith

all_empty :
    (p : FilterValue → Bool) (fs : List Filter)
    → nat_beq (length fs) 0 ≡ true
    → all_values p fs ≡ true
unfolding all
all_empty p [] h = refl
all_empty p (f ∷ fs) h = ground arith

module _ (r : Filterable) {out own fs : List Filter} (j : Joins out own fs) where
  every_joined :
      (o : Option Comparator)
      → (if nat_beq (length out) 0 then true else every_matches r out o) ≡ (
          (if nat_beq (length own) 0 then true else every_matches r own o)
          && (if nat_beq (length fs) 0 then true else every_matches r fs o))
  every_joined none =
      ground (arith, empty_test out, empty_test own, empty_test fs, j.every (λ v. false))
  every_joined (some cmp) =
      ground
        (arith, j.every (cmp r), all_empty (cmp r) out, all_empty (cmp r) own, all_empty (cmp r) fs)

  some_joined :
      (o : Option Comparator)
      → (if nat_beq (length out) 0 then true else some_matches r out o) ≡ (
          if nat_beq (length own) 0
          then (if nat_beq (length fs) 0 then true else some_matches r fs o)
          else if nat_beq (length fs) 0
          then (if nat_beq (length own) 0 then true else some_matches r own o)
          else (if nat_beq (length own) 0 then true else some_matches r own o)
            || (if nat_beq (length fs) 0 then true else some_matches r fs o))
  some_joined none =
      ground (arith, empty_test out, empty_test own, empty_test fs, j.every (λ v. false))
  some_joined (some cmp) = ground (
    arith,
    j.one (cmp r),
    any_empty (cmp r) own,
    any_empty (cmp r) fs,
    empty_test out,
    empty_test own,
    empty_test fs,
    j.every (λ v. false),
  )

module _ (k : Kind) (group other : Group) (h : Uniform k group.filters)
    (h' : Uniform k other.filters) (same_key : other.key ≡ group.key) where
  -- Two groups for one key, whose filters have values of one kind that can be printed, are
  -- combined without a panic. A route satisfies all filters of the result exactly if it satisfies
  -- all of either group; and any filter of the result exactly if it satisfies any of either, where
  -- a group without filters counts only if both have none.
  pub combine_matches :
      (c : Group) × (combine_group group other ≡ some c)
      × ((r : Filterable) → match_all c r ≡ (match_all group r && match_all other r))
      × ((r : Filterable)
          → match_any c r ≡ (
              if nat_beq (length group.filters) 0
              then match_any other r
              else if nat_beq (length other.filters) 0
              then match_any group r
              else match_any group r || match_any other r))
  unfolding combine_group rebuild_index match_all match_any
  combine_matches =
      let (out, run, u, j) = add_missing_lem k group.filters other.filters h h' in
      let (idx, indexed) = index_from_total k 0 out [] u in
      (
        record { key = group.key; filters = out; index = idx },
        rw (run, indexed) refl,
        λ r. rw same_key (every_joined r j (select_cmp_func_by_key group.key)),
        λ r. rw same_key (some_joined r j (select_cmp_func_by_key group.key)),
      )
