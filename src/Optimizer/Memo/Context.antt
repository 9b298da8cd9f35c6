-- ===== src/Optimizer/Memo/Context.antt =====
-- optimizer/optimizer_context.py: operator trees into the memo.
use eva.Optimizer.Memo.Defs.{
  Ref, GroupExpression, new_expr, Memo, expr_at, add_group_expr, erase_group,
}
use eva.Optimizer.Operators.{
  GroupId, Operator, logical_operator, physical_plan, dummy, Tree, tree, Trees, no_trees,
  more_trees,
}
use eva.Prelude.{ℕ, none, List, [], ◌∷◌}
use eva.Prelude.Result.{Result, ok, ◌>>=◌}

module _ (hash : Operator → List GroupId → ℕ) where
  -- A child that is a dummy stands for its group; any other child is added to the memo, and gives the
  -- group of the expression that the memo has for it.
  unfoldable mutual
    unfolding add_group_expr expr_at

    pub xform_opr_to_group_expr : Tree → Memo → Result (Memo × GroupExpression)
    xform_opr_to_group_expr (tree opr ts) m =
        xform_children ts m >>= λ done. ok (done.0, new_expr opr done.1)

    pub xform_children : Trees → Memo → Result (Memo × List GroupId)
    xform_children no_trees m = ok (m, [])
    xform_children (more_trees (tree (dummy g o) us) ts) m =
        xform_children ts m >>= λ done. ok (done.0, g ∷ done.1)
    xform_children (more_trees (tree (logical_operator l) us) ts) m =
        xform_opr_to_group_expr (tree (logical_operator l) us) m >>= λ child.
        add_group_expr hash child.1 none child.0 >>= λ added.
        expr_at added.0 added.1 >>= λ memo_expr.
        xform_children ts added.0 >>= λ done. ok (done.0, memo_expr.group_id ∷ done.1)
    xform_children (more_trees (tree (physical_plan p) us) ts) m =
        xform_opr_to_group_expr (tree (physical_plan p) us) m >>= λ child.
        add_group_expr hash child.1 none child.0 >>= λ added.
        expr_at added.0 added.1 >>= λ memo_expr.
        xform_children ts added.0 >>= λ done. ok (done.0, memo_expr.group_id ∷ done.1)

  unfoldable pub add_opr_to_group : Tree → GroupId → Memo → Result (Memo × Ref)
  unfolding xform_opr_to_group_expr
  add_opr_to_group t g m =
      xform_opr_to_group_expr t m >>= λ done. add_group_expr hash done.1 g done.0

  unfoldable pub replace_expression : Tree → GroupId → Memo → Result (Memo × Ref)
  unfolding add_opr_to_group erase_group
  replace_expression t g m = erase_group hash g m >>= add_opr_to_group t g
