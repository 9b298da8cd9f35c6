-- ===== src/Optimizer/Tasks/Rewrites.antt =====
-- `TopDownRewrite` and `BottomUpRewrite` of optimizer/optimizer_tasks.py.
use eva.Optimizer.Memo.Binder.{binder}
use eva.Optimizer.Memo.Context.{replace_expression}
use eva.Optimizer.Memo.Defs.{Ref, expr_at}
use eva.Optimizer.Operators.{GroupId, Operator, Tree}
use eva.Optimizer.Tasks.Defs.{
  Rule, Task, top_down_rewrite, bottom_up_rewrite, OptimizerContext, push, sort_by_promise,
  valid_rules, mark, push_children,
}
use eva.Prelude.{ℕ, Bool, true, false, List, [], ◌∷◌}
use eva.Prelude.Result.{assertion_error, Result, err, ok, ◌>>=◌}

-- whether a loop went through, or the task returned from within it
pub data Flow : Type 0 where
  went_on returned : OptimizerContext → Flow

module _ (hash : Operator → List GroupId → ℕ) where
  -- the plan takes the place of the root's group, and its new expression is a task
  unfoldable pub replace_root : (Ref → Task) → Ref → Tree → OptimizerContext → Result Flow
  unfolding expr_at replace_expression push
  replace_root task r plan c = expr_at c.memo r >>= λ root_expr.
      replace_expression hash plan root_expr.group_id c.memo >>= λ done.
      ok (returned (push (task done.1) (record c { memo = done.0 })))

  -- What becomes of the plans of one match, `next` being the rest of the loop. In the top-down rewrite
  -- a match that no plan comes from marks the rule.
  unfoldable pub after_plans :
      Bool
      → (Ref → Task)
      → Ref
      → Rule
      → (OptimizerContext → Result Flow)
      → List Tree
      → OptimizerContext
      → Result Flow
  unfolding replace_root mark
  after_plans false task r rule next [] c = next c
  after_plans true task r rule next [] c =
      mark r rule.rule_type c.memo >>= λ m. next (record c { memo = m })
  after_plans marks task r rule next (plan ∷ []) c = replace_root task r plan c
  after_plans marks task r rule next (plan ∷ second ∷ others) c = err assertion_error

  unfoldable pub after_check :
      Bool
      → (Ref → Task)
      → Ref
      → Rule
      → (OptimizerContext → Result Flow)
      → Tree
      → Bool
      → OptimizerContext
      → Result Flow
  unfolding after_plans
  after_check marks task r rule next t false c = next c
  after_check marks task r rule next t true c =
      rule.apply t c.memo >>= λ plans. after_plans marks task r rule next plans c

  -- the loop over the matches of one rule
  unfoldable pub rewrite_matches :
      Bool → (Ref → Task) → Ref → Rule → List Tree → OptimizerContext → Result Flow
  unfolding after_check
  rewrite_matches marks task r rule [] c = ok (went_on c)
  rewrite_matches marks task r rule (t ∷ ts) c =
      let next : OptimizerContext → Result Flow = rewrite_matches marks task r rule ts in
      rule.check t c.memo >>= λ applies. after_check marks task r rule next t applies c

  -- in the bottom-up rewrite a rule is marked after its matches
  unfoldable pub after_matches :
      Bool → Ref → Rule → (OptimizerContext → Result Flow) → Flow → Result Flow
  unfolding mark
  after_matches marks r rule next (returned c) = ok (returned c)
  after_matches true r rule next (went_on c) = next c
  after_matches false r rule next (went_on c) =
      mark r rule.rule_type c.memo >>= λ m. next (record c { memo = m })

  -- the loop over the rules
  unfoldable pub rewrite_rules :
      Bool → (Ref → Task) → Ref → List Rule → OptimizerContext → Result Flow
  unfolding rewrite_matches after_matches
  rewrite_rules marks task r [] c = ok (went_on c)
  rewrite_rules marks task r (rule ∷ rules) c =
      let next : OptimizerContext → Result Flow = rewrite_rules marks task r rules in
      expr_at c.memo r >>= λ root_expr. binder c.memo rule.pattern root_expr >>= λ matches.
      rewrite_matches marks task r rule matches c >>= after_matches marks r rule next

  -- the end of a rewrite: the children follow, unless the task returned
  unfoldable pub then_children : (Ref → Task) → List GroupId → Flow → Result OptimizerContext
  unfolding push_children
  then_children task gs (returned c) = ok c
  then_children task gs (went_on c) = push_children task gs c

  unfoldable pub then_nothing : Flow → Result OptimizerContext
  then_nothing (returned c) = ok c
  then_nothing (went_on c) = ok c

  unfoldable pub execute_top_down : Ref → List Rule → OptimizerContext → Result OptimizerContext
  unfolding rewrite_rules then_children valid_rules sort_by_promise
  execute_top_down r rule_set c =
      let task : Ref → Task = λ x. top_down_rewrite x rule_set in
      expr_at c.memo r >>= λ root_expr.
      rewrite_rules true task r (sort_by_promise (valid_rules root_expr rule_set)) c
      >>= then_children task root_expr.children

  -- The rules are not sorted: the source drops the sorted list.
  unfoldable pub execute_bottom_up :
      Ref → List Rule → Bool → OptimizerContext → Result OptimizerContext
  unfolding rewrite_rules push_children then_nothing valid_rules
  execute_bottom_up r rule_set false c = expr_at c.memo r >>= λ root_expr.
      push_children (λ x. bottom_up_rewrite x rule_set false) root_expr.children
        (push (bottom_up_rewrite r rule_set true) c)
  execute_bottom_up r rule_set true c = expr_at c.memo r >>= λ root_expr.
      rewrite_rules false (λ x. bottom_up_rewrite x rule_set false) r
        (valid_rules root_expr rule_set) c
      >>= then_nothing
