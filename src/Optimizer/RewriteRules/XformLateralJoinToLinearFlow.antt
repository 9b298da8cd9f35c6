-- ===== src/Optimizer/RewriteRules/XformLateralJoinToLinearFlow.antt =====
-- `XformLateralJoinToLinearFlow` of optimizer/rules/rules.py. A match has the shape of the rule's pattern; for another
-- tree the model stops.
use eva.Expression.Conjunction.Meaning.{holds_opt}
use eva.Expression.Types.{Expr}
use eva.Optimizer.Memo.Defs.{Memo}
use eva.Optimizer.Operators.{
  JoinType, lateral_join, inner_join, Join, Apply, join_opr, function_scan_opr, apply_and_merge_opr,
  logical_operator, Tree, tree, no_trees, more_trees,
}
use eva.Optimizer.RewriteRules.Shared.{node1, node2, passes, only_plan}
use eva.Prelude.{
  ◌≡◌, refl, subst, Bool, true, false, ◌&&◌, Option, none, some, List, [], ◌∷◌, arith,
}
use eva.Prelude.Result.{unsupported, Result, err, ok}

abbrev pub is_plain : Option Expr → List Expr → Bool
is_plain none [] = true
is_plain join_predicate join_project = false

unfoldable pub check : Tree → Memo → Result Bool
check (tree (logical_operator (join_opr join)) ts) m = elim join.join_type [
  | lateral_join ↦ ok (is_plain join.join_predicate join.join_project)
  | inner_join ↦ ok false
]
check t m = err unsupported

unfoldable pub apply : Tree → Memo → Result (List Tree)
apply
      (tree
        (logical_operator (join_opr join))
        (more_trees a (more_trees (tree (logical_operator (function_scan_opr scan)) us) no_trees)))
      m =
    ok (node1 (apply_and_merge_opr scan) a ∷ [])
apply t m = err unsupported

-- Where the check passes, no condition is lost with the lateral join: a row satisfies the conditions of
-- the new plan exactly when it satisfies those of the old one.
pub passes-apply_lateral :
    (atom : Expr → Bool) (join : Join) (a : Tree) (scan : Apply) (m : Memo) (after : Tree)
    → check (node2 (join_opr join) a (tree (logical_operator (function_scan_opr scan)) no_trees)) m
      ≡ ok true
    → apply (node2 (join_opr join) a (tree (logical_operator (function_scan_opr scan)) no_trees)) m
      ≡ ok (after ∷ [])
    → passes atom after
      ≡ passes atom
          (node2 (join_opr join) a (tree (logical_operator (function_scan_opr scan)) no_trees))
unfolding apply check passes
passes-apply_lateral atom join a scan m after c h =
    subst
      (λ t.
        passes atom t
        ≡ passes atom
            (node2 (join_opr join) a (tree (logical_operator (function_scan_opr scan)) no_trees)))
      (only_plan _ after h) (by_type join.join_type join.join_predicate join.join_project c)
  where
    by_type :
        (t : JoinType) (p : Option Expr) (project : List Expr)
        → elim t [ lateral_join ↦ ok (is_plain p project) | inner_join ↦ ok false ] ≡ ok true
        → (passes atom a && true) ≡ (holds_opt atom p && (passes atom a && true))
    by_type lateral_join none [] c = refl
    by_type lateral_join none (x ∷ xs) c = absurd (ground arith)
    by_type lateral_join (some e) xs c = absurd (ground arith)
    by_type inner_join p xs c = absurd (ground arith)
