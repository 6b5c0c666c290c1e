-- ===== src/Api/Filters/Six.antt =====
-- The collection of the six groups: MatchRoute, and Combine before it.
use alice_lg.Common.{
  ◌≡◌, refl, ◌∙◌, Bool, true, ◌&&◌, ◌||◌, some, [], ◌∷◌, length, nat_beq, if◌then◌else◌, arith,
}
use alice_lg.Api.Filters.Group.{Group}
use alice_lg.Api.Filters.Match.{Filterable, match_any, match_all}
use alice_lg.Api.Filters.Combine.{combine_group}
use alice_lg.Api.Filters.Kinds.{Kind, strings, ints, communities, ext_communities, Uniform}
use alice_lg.Api.Filters.Conjunction.{combine_matches}
use alice_lg.Api.Filters.Collection.{
  SearchFilters, match_route, get_group_by_key, group_position, unless_matched, combine, pairwise,
}

-- The groups of a collection
pub record Groups : Type 0 where
  pub by_source : Group
  pub by_asn : Group
  pub by_community : Group
  pub by_ext_community : Group
  pub by_large_community : Group
  pub by_addr_family : Group

abbrev pub listed : Groups → SearchFilters
listed g =
    g.by_source ∷ g.by_asn ∷ g.by_community ∷ g.by_ext_community ∷ g.by_large_community
    ∷ g.by_addr_family ∷ []

-- Two groups for one key, with values of one kind that can be printed
pub record IsPair (k : Kind) (group other : Group) : Type 0 where
  pub own_kind : Uniform k group.filters
  pub other_kind : Uniform k other.filters
  pub same_key : other.key ≡ group.key

-- Two collections whose groups are such pairs
pub record IsAligned (g h : Groups) : Type 0 where
  pub sources : IsPair strings g.by_source h.by_source
  pub asns : IsPair ints g.by_asn h.by_asn
  pub standard : IsPair communities g.by_community h.by_community
  pub extended : IsPair ext_communities g.by_ext_community h.by_ext_community
  pub large : IsPair communities g.by_large_community h.by_large_community
  pub families : IsPair ints g.by_addr_family h.by_addr_family

-- The verdict of the groups together
abbrev pub verdict : Groups → Filterable → Bool
verdict g r =
    match_any g.by_source r
    && match_any g.by_asn r
    && match_all g.by_community r
    && match_all g.by_ext_community r
    && match_all g.by_large_community r
    && match_any g.by_addr_family r

chain :
    (a b c d e f : Bool)
    → unless_matched a (
        unless_matched b
          (unless_matched c (unless_matched d (unless_matched e (unless_matched f (some true))))))
      ≡ some (a && b && c && d && e && f)
chain a b c d e f = ground arith

six :
    {a b c d e f a' b' c' d' e' f' : Bool}
    → a ≡ a'
    → b ≡ b'
    → c ≡ c'
    → d ≡ d'
    → e ≡ e'
    → f ≡ f'
    → some (a && b && c && d && e && f) ≡ some (a' && b' && c' && d' && e' && f')
six p q r s t u = rw (p, q, r, s, t, u) refl

-- MatchRoute on six groups does not panic, and is the conjunction of the verdicts of the groups.
pub match_route-verdict :
    (g : Groups) (r : Filterable) → match_route (listed g) r ≡ some (verdict g r)
unfolding match_route get_group_by_key group_position
match_route-verdict g r =
    chain (match_any g.by_source r) (match_any g.by_asn r) (match_all g.by_community r)
      (match_all g.by_ext_community r) (match_all g.by_large_community r)
      (match_any g.by_addr_family r)

-- Either of two groups: one without filters counts only if both have none.
abbrev pub either : Group → Group → Filterable → Bool
either group other r =
    if nat_beq (length group.filters) 0
    then match_any other r
    else if nat_beq (length other.filters) 0
    then match_any group r
    else match_any group r || match_any other r

abbrev pub both : Group → Group → Filterable → Bool
both group other r = match_all group r && match_all other r

-- The combination of one pair
pub record Combined (group other : Group) : Type 0 where
  pub result : Group
  pub combined : combine_group group other ≡ some result
  pub every : (r : Filterable) → match_all result r ≡ both group other r
  pub one : (r : Filterable) → match_any result r ≡ either group other r

combine_pair : {k : Kind} (group other : Group) → IsPair k group other → Combined group other
combine_pair {k} group other p =
    let (c, run, every, one) = combine_matches k group other p.own_kind p.other_kind p.same_key in
    record { result = c; combined = run; every = every; one = one }

combine-cons :
    (group other : Group) {c : Group} (s t : SearchFilters) {u : SearchFilters}
    → combine_group group other ≡ some c
    → combine s t ≡ some u
    → combine (group ∷ s) (other ∷ t) ≡ some (c ∷ u)
unfolding combine pairwise
combine-cons group other s t e rest = rw (e, rest) refl

combine-nil : combine [] [] ≡ some []
unfolding combine pairwise
combine-nil = refl

-- Two collections of the six groups, with values of the right kinds that can be printed, are
-- combined without a panic. A route matches the result exactly if it matches, by source, by ASN
-- and by address family, either of the two groups (where one without filters counts only if both
-- have none), and all communities of both, of each kind.
pub combine-match_route :
    (g h : Groups)
    → IsAligned g h
    → (c : SearchFilters) × (combine (listed g) (listed h) ≡ some c)
      × ((r : Filterable)
          → match_route c r
            ≡ some (
                either g.by_source h.by_source r
                && either g.by_asn h.by_asn r
                && both g.by_community h.by_community r
                && both g.by_ext_community h.by_ext_community r
                && both g.by_large_community h.by_large_community r
                && either g.by_addr_family h.by_addr_family r))
combine-match_route g h a =
    let sources = combine_pair g.by_source h.by_source a.sources in
    let asns = combine_pair g.by_asn h.by_asn a.asns in
    let standard = combine_pair g.by_community h.by_community a.standard in
    let extended = combine_pair g.by_ext_community h.by_ext_community a.extended in
    let large = combine_pair g.by_large_community h.by_large_community a.large in
    let families = combine_pair g.by_addr_family h.by_addr_family a.families in
    let c : Groups = record {
      by_source = sources.result;
      by_asn = asns.result;
      by_community = standard.result;
      by_ext_community = extended.result;
      by_large_community = large.result;
      by_addr_family = families.result;
    } in
    (
      listed c,
      combine-cons _ _ _ _ sources.combined (
          combine-cons _ _ _ _ asns.combined (
            combine-cons _ _ _ _ standard.combined (
              combine-cons _ _ _ _ extended.combined (
                combine-cons _ _ _ _ large.combined
                  (combine-cons _ _ _ _ families.combined combine-nil))))),
      λ r.
          match_route-verdict c r
          ∙ six (sources.one r) (asns.one r) (standard.every r) (extended.every r) (large.every r)
              (families.one r),
    )
