-- ===== src/Optimizer/Tasks/PlanGenerator.antt =====
-- optimizer/plan_generator.py. The task stack may never run empty, so that the loop is on fuel; the
-- plan is built on fuel too, as a group could be its own descendant.
use eva.Optimizer.Memo.Context.{add_opr_to_group}
use eva.Optimizer.Memo.Defs.{Ref, GroupExpression, Winner, Memo, empty_memo, group_at, expr_at}
use eva.Optimizer.Operators.{GroupId, Operator, Tree}
use eva.Optimizer.Tasks.Costing.{
  execute_apply_rule, execute_optimize_expression, execute_optimize_group, execute_optimize_inputs,
}
use eva.Optimizer.Tasks.Defs.{
  Rule, Task, top_down_rewrite, bottom_up_rewrite, optimize_expression, apply_rule, optimize_group,
  optimize_inputs, OptimizerContext, push, first_logical,
}
use eva.Optimizer.Tasks.Rewrites.{execute_top_down, execute_bottom_up}
use eva.Prelude.{ℕ, zero, suc, false, Option, none, some, List, [], ◌∷◌, ◌++◌, ◌==◌, if◌then◌else◌}
use eva.Prelude.Result.{attribute_error, Result, err, ok, ◌>>=◌}

-- what the optimizer is given: Python's `hash`, the cost model and the lists of the rules manager
pub record Settings : Type 0 where
  pub hash : Operator → List GroupId → ℕ
  pub calculate_cost : Operator → ℕ
  pub stage_one_rewrite_rules : List Rule
  pub stage_two_rewrite_rules : List Rule
  pub logical_rules : List Rule
  pub implementation_rules : List Rule

unfoldable pub execute : Settings → Task → OptimizerContext → Result OptimizerContext
execute s (top_down_rewrite r rule_set) = execute_top_down s.hash r rule_set
execute s (bottom_up_rewrite r rule_set b) = execute_bottom_up s.hash r rule_set b
execute s (optimize_expression r explore) =
    execute_optimize_expression s.logical_rules s.implementation_rules r explore
execute s (apply_rule rule r explore) = execute_apply_rule s.hash rule r explore
execute s (optimize_group g) = execute_optimize_group g
execute s (optimize_inputs r) = execute_optimize_inputs s.calculate_cost r

-- what follows a step that may raise; `next` is the rest of the loop
unfoldable pub then_run :
    Result OptimizerContext
    → (OptimizerContext → Option (Result OptimizerContext))
    → Option (Result OptimizerContext)
then_run (ok c) next = next c
then_run (err e) next = some (err e)

-- pop a task and execute it, or end where there is none
unfoldable pub pop_and_execute :
    Settings
    → List Task
    → OptimizerContext
    → (OptimizerContext → Option (Result OptimizerContext))
    → Option (Result OptimizerContext)
unfolding execute then_run
pop_and_execute s [] c next = some (ok c)
pop_and_execute s (task ∷ tasks) c next =
    then_run (execute s task (record c { task_stack = tasks })) next

-- `none` means that the fuel ran out
unfoldable pub execute_task_stack :
    ℕ → Settings → OptimizerContext → Option (Result OptimizerContext)
unfolding pop_and_execute
execute_task_stack zero s c = none
execute_task_stack (suc n) s c =
    let next : OptimizerContext → Option (Result OptimizerContext) = execute_task_stack n s in
    pop_and_execute s c.task_stack c next

-- The plan is made of the operators in the memo themselves: `append_child` adds to the children of the
-- shared object. The children are the pairs of a parent and a child, in the order of their addition.
abbrev pub Edges : Type 0
Edges = List (Ref × Ref)

-- the children that an operator has been given
unfoldable pub children_of : Ref → Edges → List Ref
children_of r [] = []
children_of r ((p, c) ∷ es) = let rest = children_of r es in if p == r then c ∷ rest else rest

-- the operator of a missing winner is asked of `None`
abbrev pub winner_expr : Option Winner → Result Ref
winner_expr none = err attribute_error
winner_expr (some w) = ok w.grp_expr

unfoldable pub best_expr : Memo → GroupId → Result Ref
unfolding group_at
best_expr m g = group_at m g >>= λ grp. winner_expr grp.winner

unfoldable pub best_with_expr : Memo → GroupId → Result (Ref × GroupExpression)
unfolding best_expr expr_at
best_with_expr m g = best_expr m g >>= λ r. expr_at m r >>= λ e. ok (r, e)

-- the rest of the loop over the children, after one child is built
unfoldable pub after_child :
    Ref → (Edges → Option (Result Edges)) → Option (Result (Ref × Edges)) → Option (Result Edges)
after_child r next none = none
after_child r next (some (err e)) = some (err e)
after_child r next (some (ok (child, es))) = next (es ++ (r, child) ∷ [])

-- the loop over the children, with the function that builds one child
unfoldable pub append_children :
    (GroupId → Edges → Option (Result (Ref × Edges)))
    → Ref
    → List GroupId
    → Edges
    → Option (Result Edges)
unfolding after_child
append_children build r [] es = some (ok es)
append_children build r (g ∷ gs) es =
    let next : Edges → Option (Result Edges) = append_children build r gs in
    after_child r next (build g es)

-- the root of the plan with its edges
unfoldable pub with_plan : Ref → Option (Result Edges) → Option (Result (Ref × Edges))
with_plan r none = none
with_plan r (some done) = some (done >>= λ es. ok (r, es))

unfoldable pub build_children :
    (GroupId → Edges → Option (Result (Ref × Edges)))
    → Edges
    → Result (Ref × GroupExpression)
    → Option (Result (Ref × Edges))
unfolding append_children with_plan
build_children build es (err x) = some (err x)
build_children build es (ok (r, e)) = with_plan r (append_children build r e.children es)

unfoldable pub build_optimal_physical_plan :
    ℕ → Memo → GroupId → Edges → Option (Result (Ref × Edges))
unfolding build_children best_with_expr
build_optimal_physical_plan zero m g es = none
build_optimal_physical_plan (suc n) m g es =
    let build : GroupId → Edges → Option (Result (Ref × Edges)) = build_optimal_physical_plan n m in
    build_children build es (best_with_expr m g)

-- one stage of `optimize` after another
unfoldable pub then_stage :
    Option (Result OptimizerContext)
    → (OptimizerContext → Option (Result OptimizerContext))
    → Option (Result OptimizerContext)
unfolding then_run
then_stage none next = none
then_stage (some r) next = then_run r next

unfoldable pub with_root : (Ref → Task) → GroupId → OptimizerContext → Result OptimizerContext
unfolding first_logical push
with_root task g c = first_logical c.memo g >>= λ r. ok (push (task r) c)

unfoldable pub rewrite_stages :
    ℕ → Settings → GroupId → OptimizerContext → Option (Result OptimizerContext)
unfolding then_stage with_root
rewrite_stages n s g c =
    then_stage
      (then_run (with_root (λ r. top_down_rewrite r s.stage_one_rewrite_rules) g c)
        (execute_task_stack n s))
      λ c1.
        then_run (with_root (λ r. bottom_up_rewrite r s.stage_two_rewrite_rules false) g c1)
          (execute_task_stack n s)

unfoldable pub costing_stage :
    ℕ → Settings → GroupId → OptimizerContext → Option (Result OptimizerContext)
unfolding execute_task_stack push
costing_stage n s none c = some (err attribute_error)
costing_stage n s (some g) c = execute_task_stack n s (push (optimize_group g) c)

-- the logical plan in a new memo, and the id of its root group
unfoldable pub start : Settings → Tree → Result (Memo × GroupId)
unfolding add_opr_to_group expr_at
start s t = add_opr_to_group s.hash t none empty_memo >>= λ done.
    expr_at done.0 done.1 >>= λ e. ok (done.0, e.group_id)

unfoldable pub build_stage :
    ℕ → GroupId → Option (Result OptimizerContext) → Option (Result (Ref × Edges))
unfolding build_optimal_physical_plan
build_stage n g none = none
build_stage n g (some (err x)) = some (err x)
build_stage n g (some (ok c)) = build_optimal_physical_plan n c.memo g []

unfoldable pub optimize_memo :
    ℕ → Settings → Result (Memo × GroupId) → Option (Result (Ref × Edges))
unfolding rewrite_stages costing_stage build_stage
optimize_memo n s (err x) = some (err x)
optimize_memo n s (ok (m, g)) =
    build_stage n g (
      then_stage (rewrite_stages n s g (record { memo = m; task_stack = [] }))
        (costing_stage n s g))

-- `optimize`: the root of the plan, and the children of its operators
unfoldable pub optimize : ℕ → Settings → Tree → Option (Result (Ref × Edges))
unfolding optimize_memo start
optimize n s t = optimize_memo n s (start s t)
