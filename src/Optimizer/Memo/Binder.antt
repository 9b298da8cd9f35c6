-- ===== src/Optimizer/Memo/Binder.antt =====
-- optimizer/binder.py and rules/pattern.py: the trees of the memo that match a pattern.
use eva.Optimizer.Memo.Defs.{Ref, GroupExpression, Memo, group_at, expr_at}
use eva.Optimizer.OperatorType.{OperatorType, opr_dummy, eq_operator_type}
use eva.Optimizer.Operators.{GroupId, dummy, has_type, Tree, tree, Trees, no_trees, more_trees}
use eva.Prelude.{ℕ, suc, not, List, [], ◌∷◌, ◌++◌, map, ◌==◌, if◌then◌else◌, length}
use eva.Prelude.Result.{Result, ok, ◌>>=◌}

mutual
  pub data Pattern : Type 0 where
    pattern_of : OperatorType → Patterns → Pattern

  pub data Patterns : Type 0 where
    no_patterns : Patterns
    more_patterns : Pattern → Patterns → Patterns

abbrev pub pattern_type : Pattern → OperatorType
pattern_type (pattern_of t ps) = t

count_patterns : Patterns → ℕ
count_patterns no_patterns = 0
count_patterns (more_patterns p ps) = suc (count_patterns ps)

-- `_grp_binder`: the matches of every logical expression of a group, one after the other
each_expr : Memo → (GroupExpression → Result (List Tree)) → List Ref → Result (List Tree)
unfolding expr_at
each_expr m f [] = ok []
each_expr m f (r ∷ rs) =
    expr_at m r >>= λ e. f e >>= λ matches. each_expr m f rs >>= λ rest. ok (matches ++ rest)

-- `itertools.product` of the matches of the children
with_first : List Tree → List Trees → List Trees
with_first [] rest = []
with_first (t ∷ ts) rest = map (more_trees t) rest ++ with_first ts rest

unfoldable mutual
  unfolding each_expr with_first count_patterns has_type group_at

  -- `_binder`; the matches are trees at once, as `build_opr_tree_from_pre_order_repr` makes them
  pub binder : Memo → Pattern → GroupExpression → Result (List Tree)
  binder m (pattern_of t ps) e =
      let pools : Result (List Trees) = bind_children m ps e.children in
      if eq_operator_type t opr_dummy
      then ok (tree (dummy e.group_id e.opr) no_trees ∷ [])
      else if not (has_type t e.opr)
      then ok []
      else if not (count_patterns ps == length e.children)
      then ok []
      else pools >>= λ products. ok (map (tree e.opr) products)

  pub bind_children : Memo → Patterns → List GroupId → Result (List Trees)
  bind_children m no_patterns gs = ok (no_trees ∷ [])
  bind_children m (more_patterns p ps) [] = ok (no_trees ∷ [])
  bind_children m (more_patterns p ps) (g ∷ gs) =
      let rest : Result (List Trees) = bind_children m ps gs in
      group_at m g >>= λ grp. each_expr m (binder m p) grp.logical_exprs >>= λ first.
      rest >>= λ others. ok (with_first first others)
