-- ===== src/Optimizer/RewriteRules/LogicalInnerJoinCommutativity.antt =====
-- `LogicalInnerJoinCommutativity` of optimizer/rules/rules.py. A match has the shape of the rule's pattern; for another
-- tree the model stops.
use eva.Expression.Conjunction.Meaning.{holds_opt}
use eva.Expression.Types.{Expr}
use eva.Optimizer.Memo.Defs.{Memo}
use eva.Optimizer.Operators.{
  lateral_join, inner_join, Join, join_opr, logical_operator, Tree, tree, no_trees, more_trees,
}
use eva.Optimizer.RewriteRules.Shared.{node2, passes}
use eva.Prelude.{◌≡◌, refl, ap, Bool, true, false, ◌&&◌, List, [], ◌∷◌, arith}
use eva.Prelude.Result.{unsupported, Result, err, ok}

unfoldable pub check : Tree → Memo → Result Bool
check (tree (logical_operator (join_opr join)) ts) m = elim join.join_type [
  | lateral_join ↦ ok false
  | inner_join ↦ ok true
]
check t m = err unsupported

-- `LogicalJoin(join_type, join_predicate)`
unfoldable pub apply : Tree → Memo → Result (List Tree)
apply (tree (logical_operator (join_opr join)) (more_trees lhs (more_trees rhs no_trees))) m = ok (
    node2
      (join_opr (record {
        join_type = join.join_type;
        join_predicate = join.join_predicate;
        left_keys = [];
        right_keys = [];
        join_project = [];
      }))
      rhs lhs
    ∷ [])
apply t m = err unsupported

-- Joins in either order have the same conditions, and swapping the sides twice gives back the sides, the
-- type and the predicate of the join.
pub apply_twice :
    (join : Join) (lhs rhs : Tree) (m : Memo)
    → (once : Tree) × (apply (node2 (join_opr join) lhs rhs) m ≡ ok (once ∷ []))
      × (apply once m
          ≡ ok (
              node2
                (join_opr (record join { left_keys = []; right_keys = []; join_project = [] }))
                lhs
                rhs
              ∷ []))
      × ((atom : Expr → Bool) → passes atom once ≡ passes atom (node2 (join_opr join) lhs rhs))
unfolding apply passes
apply_twice join lhs rhs m = (
  node2
      (join_opr (record {
        join_type = join.join_type;
        join_predicate = join.join_predicate;
        left_keys = [];
        right_keys = [];
        join_project = [];
      }))
      rhs lhs,
  refl,
  refl,
  swapped,
)
  where
    swapped :
        (atom : Expr → Bool)
        → (holds_opt atom join.join_predicate && (passes atom rhs && (passes atom lhs && true)))
          ≡ (holds_opt atom join.join_predicate && (passes atom lhs && (passes atom rhs && true)))
    swapped atom = ap (λ b. holds_opt atom join.join_predicate && b) (ground arith)
