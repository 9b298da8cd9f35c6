-- ===== src/Optimizer/RewriteRules/PushDownFilterThroughApplyAndMerge.antt =====
-- `PushDownFilterThroughApplyAndMerge` of optimizer/rules/rules.py. A match has the shape of the rule's pattern; for another
-- tree the model stops.
use eva.Expression.Conjunction.Meaning.{holds_opt}
use eva.Expression.Holds.{holds}
use eva.Expression.Types.{Expr}
use eva.Optimizer.Memo.Defs.{Memo}
use eva.Optimizer.Operators.{
  Apply, filter_opr, apply_and_merge_opr, GroupId, Operator, logical_operator, dummy, Tree, tree,
  Trees, no_trees, more_trees,
}
use eva.Optimizer.Pushdown.Defs.{extract_pushdown_predicate_for_alias}
use eva.Optimizer.Pushdown.Meaning.{holds-extract_pushdown_predicate_for_alias}
use eva.Optimizer.RewriteRules.Shared.{
  group_aliases, node1, with_filter, passes, passes_all, passes-with_filter, only_plan,
}
use eva.Prelude.{◌≡◌, sym, subst, ◌∙◌, Bool, true, ◌&&◌, Option, none, some, List, [], ◌∷◌, arith}
use eva.Prelude.Result.{unsupported, Result, err, ok, ◌>>=◌, >>=-eq-ok}

-- no plan where nothing can be pushed
abbrev pub plans : Apply → Tree → Option Expr × Option Expr → List Tree
plans apply_and_merge a (none, rem_pred) = []
plans apply_and_merge a (some pushdown_pred, rem_pred) =
    with_filter rem_pred
      (node1 (apply_and_merge_opr apply_and_merge) (node1 (filter_opr pushdown_pred) a))
    ∷ []

unfoldable pub apply : Tree → Memo → Result (List Tree)
unfolding group_aliases extract_pushdown_predicate_for_alias
apply
      (tree (logical_operator (filter_opr predicate)) (
        more_trees
          (tree
            (logical_operator (apply_and_merge_opr apply_and_merge))
            (more_trees (tree (dummy g o) us) no_trees))
          no_trees))
      m =
    group_aliases m g >>= λ aliases.
    extract_pushdown_predicate_for_alias (some predicate) aliases >>= λ parts.
    ok (plans apply_and_merge (tree (dummy g o) us) parts)
apply t m = err unsupported

-- Where a part of the filter over an apply-and-merge is pushed below it, a row satisfies the conditions
-- of the new plan exactly when it satisfies those of the old one.
pub passes-apply_through_apply :
    (atom : Expr → Bool) (predicate : Expr) (apply_and_merge : Apply) (g : GroupId) (o : Operator)
    (us : Trees) (m : Memo) (after : Tree)
    → apply
        (node1
          (filter_opr predicate)
          (node1 (apply_and_merge_opr apply_and_merge) (tree (dummy g o) us)))
        m
      ≡ ok (after ∷ [])
    → passes atom after
      ≡ passes atom (
          node1
            (filter_opr predicate)
            (node1 (apply_and_merge_opr apply_and_merge) (tree (dummy g o) us)))
unfolding apply passes
passes-apply_through_apply atom predicate apply_and_merge g o us m after h =
    let (aliases, p, q) = >>=-eq-ok (group_aliases m g) _ h in
    let ((pushed, rest), u, v) =
      >>=-eq-ok (extract_pushdown_predicate_for_alias (some predicate) aliases) _ q in
    by_part pushed rest
      (holds-extract_pushdown_predicate_for_alias atom predicate aliases pushed rest u) v
  where
    three :
        (a b c : Bool) → (a && ((b && (c && true)) && true)) ≡ ((b && a) && ((c && true) && true))
    three a b c = ground arith

    by_part :
        (pushed rest : Option Expr)
        → (holds_opt atom pushed && holds_opt atom rest) ≡ holds atom predicate
        → ok (plans apply_and_merge (tree (dummy g o) us) (pushed, rest)) ≡ ok (after ∷ [])
        → passes atom after
          ≡ passes atom (
              node1
                (filter_opr predicate)
                (node1 (apply_and_merge_opr apply_and_merge) (tree (dummy g o) us)))
    by_part none rest k e = absurd (cc)
    by_part (some p) rest k e =
        subst
          (λ t.
            passes atom t
            ≡ passes atom (
                node1 (filter_opr predicate)
                  (node1 (apply_and_merge_opr apply_and_merge) (tree (dummy g o) us))))
          (only_plan _ after e)
          (passes-with_filter atom rest (
              node1 (apply_and_merge_opr apply_and_merge)
                (node1 (filter_opr p) (tree (dummy g o) us)))
            ∙ rw (sym k) (three (holds_opt atom rest) (holds atom p) (passes_all atom us)))
