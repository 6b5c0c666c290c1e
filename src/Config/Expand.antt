-- ===== src/Config/Expand.antt =====
-- pkg/config/expand.go: the expansion of variables in the configuration. The two recursive
-- functions take fuel, and `none` is that it runs out: Placeholders is about the fuel of the search
-- of placeholders, Divergence about that of `Expand`, and Variables has AddExpr. The matches of the
-- two regular expressions are written out; characters are code points.
pub mod Placeholders
pub mod Divergence
pub mod Variables
use alice_lg.Common.{
  ℕ, zero, suc, ◌+◌, ◌-◌, Bool, true, false, ◌&&◌, Option, none, some, List, [], ◌∷◌, ◌++◌, length,
  take, drop, map, ltb, leb, nat_beq, nat_eq, list_eq, list_beq, if◌then◌else◌, ◌>>=◌,
}
use alice_lg.Common.Assoc.{Assoc, get, put}
use alice_lg.Common.Texts.{Text, codes, has_prefix, trim_space}

-- ExpandMap
abbrev pub ExpandMap : Type 0
ExpandMap = Assoc Text Text

-- The leading closing braces
unfoldable pub closing : Text → Text
closing [] = []
closing (c ∷ s) = let rest = closing s in if nat_beq c b'}' then c ∷ rest else []

-- After an opening brace: the rest of a match of .*}+ with as few characters as possible before
-- the braces, and as many braces as possible; a dot matches no newline.
unfoldable pub body : Text → Option Text
body [] = none
body (c ∷ s) =
    let rest = body s in
    if nat_beq c b'}'
    then some (closing (c ∷ s))
    else if nat_beq c 10
    then none
    else elim rest [ none ↦ none | some t ↦ some (c ∷ t) ]

-- A match of expandMatchPlaceholder at the start
unfoldable pub placeholder_at : Text → Option Text
placeholder_at [] = none
placeholder_at (c ∷ s) =
    if nat_beq c b'{' then elim (body s) [ none ↦ none | some t ↦ some (c ∷ t) ] else none

-- After two opening braces: the rest of a match of .*\*}}+, in the same way
unfoldable pub wildcard_body : Text → Option Text
wildcard_body [] = none
wildcard_body (c ∷ s) =
    let rest = wildcard_body s in
    if nat_beq c b'*' && has_prefix s (codes "}}")
    then some (c ∷ closing s)
    else if nat_beq c 10
    then none
    else elim rest [ none ↦ none | some t ↦ some (c ∷ t) ]

-- A match of expandMatchWildcardShorthard at the start
unfoldable pub wildcard_at : Text → Option Text
wildcard_at s =
    if has_prefix s (codes "{{")
    then elim (wildcard_body (drop 2 s)) [ none ↦ none | some t ↦ some (codes "{{" ++ t) ]
    else none

-- FindAllString: the matches from left to right; `skip` characters are those of the last match.
unfoldable pub find_all : (Text → Option Text) → ℕ → Text → List Text
find_all match_at skip [] = []
find_all match_at (suc skip) (c ∷ s) = find_all match_at skip s
find_all match_at zero (c ∷ s) = elim (match_at (c ∷ s)) [
  | none ↦ find_all match_at 0 s
  | some m ↦ m ∷ find_all match_at (length m - 1) s
]

-- strings.TrimSuffix of one character
unfoldable pub trim_suffix : ℕ → Text → Text
trim_suffix x [] = []
trim_suffix x (c ∷ []) = if nat_beq c x then [] else c ∷ []
trim_suffix x (c ∷ d ∷ s) = c ∷ trim_suffix x (d ∷ s)

-- strings.TrimPrefix of one character
unfoldable pub trim_prefix : ℕ → Text → Text
trim_prefix x [] = []
trim_prefix x (c ∷ s) = if nat_beq c x then s else c ∷ s

-- expandGetKey
unfoldable pub get_key : Text → Text
get_key s = trim_suffix b'}' (trim_prefix b'{' s)

-- strings.Replace(s, old, new, -1) for an `old` that is not empty
unfoldable pub replace_from : Text → Text → ℕ → Text → Text
replace_from old new skip [] = []
replace_from old new (suc skip) (c ∷ s) = replace_from old new skip s
replace_from old new zero (c ∷ s) =
    let matched = new ++ replace_from old new (length old - 1) s in
    let next = c ∷ replace_from old new 0 s in if has_prefix (c ∷ s) old then matched else next

abbrev pub replace : Text → Text → Text → Text
replace s old new = replace_from old new 0 s

-- The loop of expandFindPlaceholders; `deeper` is its recursive call.
unfoldable pub with_inner : (Text → Option (List Text)) → List Text → Option (List Text)
with_inner deeper [] = some []
with_inner deeper (result ∷ results) = do
  inner ← deeper (get_key result)
  rest ← with_inner deeper results
  some (result ∷ inner ++ rest)

-- expandFindPlaceholders
unfoldable pub find_placeholders : ℕ → Text → Option (List Text)
find_placeholders zero s = none
find_placeholders (suc fuel) s = with_inner (find_placeholders fuel) (find_all placeholder_at 0 s)

-- expandGetLevel
unfoldable pub get_level : Text → ℕ
get_level [] = 0
get_level (c ∷ s) = if nat_beq c b'{' then get_level s + 1 else get_level s

-- strings.HasSuffix(key, "*")
unfoldable pub is_wildcard : Text → Bool
is_wildcard [] = false
is_wildcard (c ∷ []) = nat_beq c b'*'
is_wildcard (c ∷ d ∷ s) = is_wildcard (d ∷ s)

-- The loop of matchWildcard
unfoldable pub match_prefix : Text → ExpandMap → List Text
match_prefix pattern [] = []
match_prefix pattern ((k, v) ∷ e) =
    let rest = match_prefix pattern e in
    if has_prefix k pattern then drop (length pattern) k ∷ rest else rest

-- matchWildcard
unfoldable pub match_wildcard : ExpandMap → Text → List Text
match_wildcard e pattern = match_prefix (trim_suffix b'*' pattern) e

-- getSubstitutions
unfoldable pub get_substitutions : ExpandMap → Text → List Text
get_substitutions e key =
    if is_wildcard key
    then match_wildcard e key
    else elim (get key e) [ none ↦ [] | some val ↦ val ∷ [] ]

-- The loop of expandPreprocess: {{KEY*}} becomes {KEY{KEY*}}. The slice of a match is in bounds,
-- as it has at least five characters.
unfoldable pub replace_shorthands : List Text → Text → Text
replace_shorthands [] s = s
replace_shorthands (m ∷ matches) s =
    let key = take (length m - 5) (drop 2 m) in
    replace_shorthands matches (replace s m (codes "{" ++ key ++ codes "{" ++ key ++ codes "*}}"))

-- expandPreprocess
unfoldable pub preprocess : Text → Text
preprocess s = replace_shorthands (find_all wildcard_at 0 s) s

-- Texts, or the error for a placeholder without substitutions
pub data Expanded (A : Type 0) : Type 0 where
  expanded : A → Expanded A
  no_substitution : Text → Text → Expanded A

-- The loop of Expand that collects the substitutions
unfoldable pub collect :
    ExpandMap → Text → List Text → Assoc Text (List Text) → Expanded (Assoc Text (List Text))
collect e s [] substitutions = expanded substitutions
collect e s (p ∷ placeholders) substitutions = elim (get_substitutions e (get_key p)) [
  | [] ↦
      if nat_beq (get_level p) 1
      then no_substitution p s
      else collect e s placeholders substitutions
  | sub ∷ subs ↦ collect e s placeholders (put p (sub ∷ subs) substitutions)
]

-- The two inner loops of the substitution
unfoldable pub substitute_all : Text → List Text → List Text → List Text
substitute_all p subs [] = []
substitute_all p subs (s ∷ texts) =
    map (λ (sub : Text). replace s p sub) subs ++ substitute_all p subs texts

-- The loop over the substitutions
unfoldable pub apply_substitutions : Assoc Text (List Text) → List Text → List Text
apply_substitutions [] texts = texts
apply_substitutions ((p, subs) ∷ substitutions) texts =
    apply_substitutions substitutions (substitute_all p subs texts)

-- The last loop of Expand; `again` is its recursive call.
unfoldable pub expand_all :
    (Text → Option (Expanded (List Text))) → List Text → Option (Expanded (List Text))
expand_all again [] = some (expanded [])
expand_all again (s ∷ texts) = do
  res ← again s
  elim res [
    | no_substitution p t ↦ some (no_substitution p t)
    | expanded results ↦
        (expand_all again texts >>= λ rest. elim rest [
          | no_substitution p t ↦ some (no_substitution p t)
          | expanded others ↦ some (expanded (results ++ others))
        ])
  ]

-- Expand, once its placeholders are found
unfoldable pub expand_found :
    (Text → Option (Expanded (List Text)))
    → ExpandMap
    → Text
    → List Text
    → Option (Expanded (List Text))
expand_found again e s [] = some (expanded (s ∷ []))
expand_found again e s (p ∷ placeholders) = elim (collect e s (p ∷ placeholders) []) [
  | no_substitution q t ↦ some (no_substitution q t)
  | expanded substitutions ↦ expand_all again (apply_substitutions substitutions (s ∷ []))
]

-- Expand; the search of placeholders gets the fuel that is enough for it.
unfoldable pub expand : ℕ → ExpandMap → Text → Option (Expanded (List Text))
expand zero e s = none
expand (suc fuel) e s = do
  placeholders ← find_placeholders (length (preprocess s) + 1) (preprocess s)
  expand_found (expand fuel e) e (preprocess s) placeholders
