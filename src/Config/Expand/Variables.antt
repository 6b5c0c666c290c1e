-- ===== src/Config/Expand/Variables.antt =====
-- pkg/config/expand.go, AddExpr: the definition of variables.
use alice_lg.Common.{
  ℕ, Option, none, some, List, [], ◌∷◌, nat_beq, nat_eq, list_eq, if◌then◌else◌, ◌>>=◌,
}
use alice_lg.Common.Assoc.{put}
use alice_lg.Common.Texts.{Text, trim_space}
use alice_lg.Config.Expand.{ExpandMap, expanded, no_substitution, expand}

-- strings.SplitN(s, sep, 2), if it has two parts
unfoldable pub cut : ℕ → Text → Option (Text × Text)
cut sep [] = none
cut sep (c ∷ s) =
    let rest = cut sep s in
    if nat_beq c sep
    then some ([], s)
    else elim rest [ none ↦ none | some (before, after) ↦ some (c ∷ before, after) ]

-- The error of AddExpr
pub data AddError : Type 0 where
  missing_value : AddError
  invalid_expression : AddError

-- The loop of AddExpr; an error leaves the variables that were set before it.
unfoldable pub add_all : List Text → ExpandMap → ExpandMap × Option AddError
add_all [] e = (e, none)
add_all (exp ∷ res) e = elim (cut b'=' exp) [
  | none ↦ (e, some invalid_expression)
  | some (key, val) ↦ add_all res (put (trim_space key) (trim_space val) e)
]

-- AddExpr; `none` is that the expansion runs out of fuel.
unfoldable pub add_expr : ℕ → ExpandMap → Text → Option (ExpandMap × Option AddError)
add_expr fuel e expr = do
  res ← expand fuel e expr
  elim res [
    | no_substitution p s ↦ some (e, some missing_value)
    | expanded texts ↦ some (add_all texts e)
  ]
