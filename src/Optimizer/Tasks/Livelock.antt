-- ===== src/Optimizer/Tasks/Livelock.antt =====
-- A group that can get no plan keeps the task stack busy for ever.
use eva.Optimizer.Memo.Defs.{Ref, GroupExpression, Group, Memo, group_at, expr_at}
use eva.Optimizer.Operators.{GroupId}
use eva.Optimizer.Tasks.Costing.{
  push_all, expression_tasks, execute_optimize_expression, group_tasks, unless_winner,
  execute_optimize_group, child_cost, children_cost, after_children, execute_optimize_inputs,
}
use eva.Optimizer.Tasks.Defs.{
  Task, optimize_expression, optimize_group, optimize_inputs, OptimizerContext, push,
  sort_by_promise, matching_rules,
}
use eva.Optimizer.Tasks.PlanGenerator.{
  Settings, execute, then_run, pop_and_execute, execute_task_stack,
}
use eva.Prelude.{
  ℕ, zero, suc, ◌≡◌, refl, ap, false, none, some, List, [], ◌∷◌, ◌++◌, map, get_elem?,
}
use eva.Prelude.Result.{ok}
use mathlib.Core.List.{append-nil}

-- no rule matches any of the expressions
abbrev pub NoneMatches : Settings → Memo → List Ref → Type 0
NoneMatches s m [] = Unit
NoneMatches s m (l ∷ ls) =
    ((e : GroupExpression) × (expr_at m l ≡ ok e)
      × (matching_rules e.opr (s.logical_rules ++ s.implementation_rules) ≡ []))
    × NoneMatches s m ls

abbrev explore_task : Ref → Task
explore_task l = optimize_expression l false

-- the memo with the tasks for some expressions before the others
abbrev pending : Memo → List Ref → List Task → OptimizerContext
pending m ls ts = record { memo = m; task_stack = map explore_task ls ++ ts }

push_all-pending :
    (s : Settings) (m : Memo) (xs ys : List Ref) (ts : List Task)
    → NoneMatches s m xs
    → NoneMatches s m ys
    → (zs : List Ref) × NoneMatches s m zs
      × (push_all (map explore_task xs) (pending m ys ts) ≡ pending m zs ts)
unfolding push
push_all-pending s m [] ys ts hx hy = (ys, hy, refl)
push_all-pending s m (x ∷ xs) ys ts hx hy = push_all-pending s m xs (x ∷ ys) ts hx.1 (hx.0, hy)

-- one step that does not raise
step-ok :
    (n : ℕ) (s : Settings) (t : Task) (m : Memo) (ts : List Task) (c : OptimizerContext)
    → execute s t (record { memo = m; task_stack = ts }) ≡ ok c
    → execute_task_stack n s c ≡ none
    → execute_task_stack (suc n) s (record { memo = m; task_stack = t ∷ ts }) ≡ none
unfolding execute_task_stack pop_and_execute then_run
step-ok n s t m ts c p h = rw p h

module _ (s : Settings) (m : Memo) (r : Ref) (e : GroupExpression) (g : ℕ) (gs : List GroupId)
    (grp : Group) (at : expr_at m r ≡ ok e) (first : e.children ≡ some g ∷ gs)
    (here : get_elem? m.groups g ≡ some grp) (unplanned : grp.winner ≡ none)
    (no_physical : grp.physical_exprs ≡ []) (no_rule : NoneMatches s m grp.logical_exprs) where
  costing-again :
      (ts : List Task)
      → execute s (optimize_inputs r) (record { memo = m; task_stack = ts })
        ≡ ok (record { memo = m; task_stack = optimize_group g ∷ optimize_inputs r ∷ ts })
  unfolding execute execute_optimize_inputs children_cost child_cost after_children push
  costing-again ts = rw (at, first, here, unplanned)

  nothing_to_do :
      (l : Ref) (ts : List Task)
      → (x : GroupExpression) × (expr_at m l ≡ ok x)
        × (matching_rules x.opr (s.logical_rules ++ s.implementation_rules) ≡ [])
      → execute s (explore_task l) (record { memo = m; task_stack = ts })
        ≡ ok (record { memo = m; task_stack = ts })
  unfolding execute execute_optimize_expression expression_tasks sort_by_promise
  nothing_to_do l ts (x, p, q) = rw (p, q)

  group_step :
      (ts : List Task)
      → (zs : List Ref) × NoneMatches s m zs
        × (execute s (optimize_group g) (record { memo = m; task_stack = ts })
            ≡ ok (pending m zs ts))
  unfolding execute execute_optimize_group group_tasks unless_winner group_at
  group_step ts =
      let (zs, h, p) = push_all-pending s m grp.logical_exprs [] ts no_rule tt in
      (zs, h, rw (here, unplanned, no_physical, append-nil) (ap ok p))

  mutual
    unfolding execute_task_stack

    pending-none :
        (n : ℕ) (ls : List Ref) (ts : List Task)
        → NoneMatches s m ls
        → execute_task_stack n s (pending m ls (optimize_inputs r ∷ ts)) ≡ none
    pending-none zero ls ts h = refl
    pending-none (suc n) [] ts h =
        step-ok n s (optimize_inputs r) m ts _ (costing-again ts) (group-none n ts)
    pending-none (suc n) (l ∷ ls) ts h =
        step-ok n s (explore_task l) m (map explore_task ls ++ optimize_inputs r ∷ ts) _
          (nothing_to_do l (map explore_task ls ++ optimize_inputs r ∷ ts) h.0)
          (pending-none n ls ts h.1)

    group-none :
        (n : ℕ) (ts : List Task)
        → execute_task_stack n s
            (record { memo = m; task_stack = optimize_group g ∷ optimize_inputs r ∷ ts })
          ≡ none
    group-none zero ts = refl
    group-none (suc n) ts =
        let (zs, h, p) = group_step (optimize_inputs r ∷ ts) in
        step-ok n s (optimize_group g) m (optimize_inputs r ∷ ts) _ p (pending-none n zs ts h)

-- An expression whose first child is a group without a winner and without physical expressions, on
-- whose logical expressions no rule matches, is costed again and again: the task stack never runs
-- empty, and no exception ends the loop.
pub execute_task_stack_never_ends :
    (n : ℕ) (s : Settings) (m : Memo) (r : Ref) (e : GroupExpression) (g : ℕ) (gs : List GroupId)
    (grp : Group) (ts : List Task)
    → expr_at m r ≡ ok e
    → e.children ≡ some g ∷ gs
    → get_elem? m.groups g ≡ some grp
    → grp.winner ≡ none
    → grp.physical_exprs ≡ []
    → NoneMatches s m grp.logical_exprs
    → execute_task_stack n s (record { memo = m; task_stack = optimize_inputs r ∷ ts }) ≡ none
execute_task_stack_never_ends n s m r e g gs grp ts at first here unplanned no_physical no_rule =
    pending-none s m r e g gs grp at first here unplanned no_physical no_rule n [] ts tt
