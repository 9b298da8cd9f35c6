-- ===== src/Optimizer/Tasks/Costing.antt =====
-- `ApplyRule`, `OptimizeExpression`, `OptimizeGroup` and `OptimizeInputs` of
-- optimizer/optimizer_tasks.py.
use eva.Optimizer.Memo.Binder.{binder}
use eva.Optimizer.Memo.Context.{add_opr_to_group}
use eva.Optimizer.Memo.Defs.{
  Ref, GroupExpression, is_rule_explored, Winner, Group, Memo, group_at, expr_at, set_group,
  add_expr_cost,
}
use eva.Optimizer.Operators.{GroupId, Operator, is_logical, Tree}
use eva.Optimizer.RewriteRules.PushDownFilterThroughApplyAndMerge.{plans}
use eva.Optimizer.Tasks.Defs.{
  Rule, Task, optimize_expression, apply_rule, optimize_group, optimize_inputs, OptimizerContext,
  push, sort_by_promise, matching_rules, mark,
}
use eva.Prelude.{
  ℕ, ◌+◌, ◌⊎◌, inl, inr, Bool, true, false, Option, none, some, List, [], ◌∷◌, ◌++◌, map,
  if◌then◌else◌, get_elem?,
}
use eva.Prelude.Result.{attribute_error, Result, err, ok, or_raise, ◌>>=◌}

module _ (hash : Operator → List GroupId → ℕ) where
  -- `ApplyRule`: every plan goes into the group of the root
  abbrev pub follow_up : Ref → Bool → GroupExpression → Task
  follow_up r explore e =
      if is_logical e.opr then optimize_expression r explore else optimize_inputs r

  unfoldable pub add_plans : Ref → Bool → List Tree → OptimizerContext → Result OptimizerContext
  unfolding add_opr_to_group push
  add_plans r explore [] c = ok c
  add_plans r explore (plan ∷ plans) c = expr_at c.memo r >>= λ root_expr.
      add_opr_to_group hash plan root_expr.group_id c.memo >>= λ done.
      expr_at done.0 done.1 >>= λ e.
      add_plans r explore plans (push (follow_up done.1 explore e) (record c { memo = done.0 }))

  unfoldable pub apply_match :
      Ref
      → Bool
      → Rule
      → (OptimizerContext → Result OptimizerContext)
      → Tree
      → Bool
      → OptimizerContext
      → Result OptimizerContext
  unfolding add_plans
  apply_match r explore rule next t false c = next c
  apply_match r explore rule next t true c =
      rule.apply t c.memo >>= λ plans. add_plans r explore plans c >>= next

  unfoldable pub apply_matches :
      Ref → Bool → Rule → List Tree → OptimizerContext → Result OptimizerContext
  unfolding apply_match
  apply_matches r explore rule [] c = ok c
  apply_matches r explore rule (t ∷ ts) c =
      let next : OptimizerContext → Result OptimizerContext = apply_matches r explore rule ts in
      rule.check t c.memo >>= λ applies. apply_match r explore rule next t applies c

  -- nothing is done where the rule was explored
  unfoldable pub unless_explored :
      Rule → Ref → Bool → GroupExpression → Bool → OptimizerContext → Result OptimizerContext
  unfolding apply_matches mark
  unless_explored rule r explore root_expr true c = ok c
  unless_explored rule r explore root_expr false c =
      binder c.memo rule.pattern root_expr >>= λ matches.
      apply_matches r explore rule matches c >>= λ c'.
      mark r rule.rule_type c'.memo >>= λ m. ok (record c' { memo = m })

  unfoldable pub execute_apply_rule : Rule → Ref → Bool → OptimizerContext → Result OptimizerContext
  unfolding unless_explored is_rule_explored
  execute_apply_rule rule r explore c = expr_at c.memo r >>= λ root_expr.
      unless_explored rule r explore root_expr (is_rule_explored rule.rule_type root_expr) c

abbrev pub push_all : List Task → OptimizerContext → OptimizerContext
push_all [] c = c
push_all (t ∷ ts) c = push_all ts (push t c)

-- one task for each rule that matches; the rule that is pushed last comes first
unfoldable pub expression_tasks : List Rule → Ref → Bool → Operator → List Task
unfolding matching_rules sort_by_promise
expression_tasks rules r explore opr =
    map (λ rule. apply_rule rule r explore) (sort_by_promise (matching_rules opr rules))

-- the two lists of the rules manager that the last stage uses
unfoldable pub execute_optimize_expression :
    List Rule → List Rule → Ref → Bool → OptimizerContext → Result OptimizerContext
unfolding expression_tasks push expr_at
execute_optimize_expression logical_rules implementation_rules r explore c =
    let rules : List Rule =
      if explore then logical_rules else logical_rules ++ implementation_rules in
    expr_at c.memo r >>= λ root_expr.
    ok (push_all (expression_tasks rules r explore root_expr.opr) c)

unfoldable pub group_tasks : Group → List Task
group_tasks grp =
    map (λ r. optimize_expression r false) grp.logical_exprs
    ++ map optimize_inputs grp.physical_exprs

-- nothing is done for a group that has a winner
unfoldable pub unless_winner : Option Winner → List Task → OptimizerContext → OptimizerContext
unfolding push
unless_winner none ts c = push_all ts c
unless_winner (some w) ts c = c

unfoldable pub execute_optimize_group : ℕ → OptimizerContext → Result OptimizerContext
unfolding group_at group_tasks unless_winner
execute_optimize_group g c =
    group_at c.memo (some g) >>= λ grp. ok (unless_winner grp.winner (group_tasks grp) c)

-- the children's costs added up, or the first child that has none
abbrev pub add_cost : ℕ → ℕ ⊎ ℕ → ℕ ⊎ ℕ
add_cost w (inl cost) = inl (w + cost)
add_cost w (inr child) = inr child

-- `next` is the rest of the loop over the children
unfoldable pub child_cost : ℕ → Option Winner → Result (ℕ ⊎ ℕ) → Result (ℕ ⊎ ℕ)
child_cost g none next = ok (inr g)
child_cost g (some w) next = next >>= λ rest. ok (add_cost w.cost rest)

-- A missing group is `None`, on which the call fails.
unfoldable pub children_cost : Memo → List GroupId → Result (ℕ ⊎ ℕ)
unfolding child_cost
children_cost m [] = ok (inl 0)
children_cost m (none ∷ gs) = err attribute_error
children_cost m (some g ∷ gs) =
    let next : Result (ℕ ⊎ ℕ) = children_cost m gs in
    or_raise attribute_error (get_elem? m.groups g) >>= λ child_grp.
    child_cost g child_grp.winner next

-- `grp.add_expr_cost` on the group of the expression
unfoldable pub record_cost : Ref → ℕ → GroupId → OptimizerContext → Result OptimizerContext
unfolding add_expr_cost set_group
record_cost r cost none c = err attribute_error
record_cost r cost (some g) c = or_raise attribute_error (get_elem? c.memo.groups g) >>= λ grp.
    ok (record c { memo = set_group g (add_expr_cost r cost grp) c.memo })

-- The cost model is given.
module _ (calculate_cost : Operator → ℕ) where
  unfoldable pub after_children :
      Ref → GroupExpression → ℕ ⊎ ℕ → OptimizerContext → Result OptimizerContext
  unfolding record_cost push
  after_children r root_expr (inr child) c =
      ok (push (optimize_group child) (push (optimize_inputs r) c))
  after_children r root_expr (inl cost) c =
      record_cost r (cost + calculate_cost root_expr.opr) root_expr.group_id c

  unfoldable pub execute_optimize_inputs : Ref → OptimizerContext → Result OptimizerContext
  unfolding children_cost after_children
  execute_optimize_inputs r c = expr_at c.memo r >>= λ root_expr.
      children_cost c.memo root_expr.children >>= λ costs. after_children r root_expr costs c
