-- ===== src/Optimizer/Tasks/Run.antt =====
-- The loop over the task stack leaves whole plans behind.
use eva.Optimizer.Tasks.Defs.{Task, OptimizerContext}
use eva.Optimizer.Tasks.KeepsPlanned.{KeepsPlanned-execute}
use eva.Optimizer.Tasks.PlanGenerator.{
  Settings, execute, then_run, pop_and_execute, execute_task_stack,
}
use eva.Optimizer.Tasks.Plans.{Planned}
use eva.Prelude.{ℕ, zero, suc, ◌≡◌, refl, subst, Option, some, List, [], ◌∷◌, arith}
use eva.Prelude.Result.{Result, err, ok}

pub then_run-eq-ok :
    (r : Result OptimizerContext) (next : OptimizerContext → Option (Result OptimizerContext))
    {c : OptimizerContext}
    → then_run r next ≡ some (ok c)
    → (d : OptimizerContext) × (r ≡ ok d) × (next d ≡ some (ok c))
unfolding then_run
then_run-eq-ok (ok d) next h = (d, refl, h)
then_run-eq-ok (err e) next h = absurd (ground arith)

some_ok-injective : (a b : OptimizerContext) → some (ok a) ≡ some (ok b) → a ≡ b
some_ok-injective a b h = cc

popped-Planned :
    (s : Settings) (next : OptimizerContext → Option (Result OptimizerContext)) (ts : List Task)
    (c c' : OptimizerContext)
    → ((d : OptimizerContext)
        → Planned s.calculate_cost d.memo
        → next d ≡ some (ok c')
        → Planned s.calculate_cost c'.memo × (c'.task_stack ≡ []))
    → Planned s.calculate_cost c.memo
    → c.task_stack ≡ ts
    → pop_and_execute s ts c next ≡ some (ok c')
    → Planned s.calculate_cost c'.memo × (c'.task_stack ≡ [])
unfolding pop_and_execute
popped-Planned s next [] c c' ih planned e h =
    subst (λ (x : OptimizerContext). Planned s.calculate_cost x.memo × (x.task_stack ≡ []))
      (some_ok-injective c c' h) (planned, e)
popped-Planned s next (t ∷ ts) c c' ih planned e h =
    let c1 : OptimizerContext = record c { task_stack = ts } in
    let (d, p, q) = then_run-eq-ok (execute s t c1) next h in
    ih d (KeepsPlanned-execute s t c1 d planned p) q

-- From a memo in which every winner heads a whole plan, whose operators all together cost no more than
-- the winner says: when the task stack has run empty, whatever the rules, that is so again, and the
-- stack is empty.
pub execute_task_stack-Planned :
    (n : ℕ) (s : Settings) (c c' : OptimizerContext)
    → Planned s.calculate_cost c.memo
    → execute_task_stack n s c ≡ some (ok c')
    → Planned s.calculate_cost c'.memo × (c'.task_stack ≡ [])
unfolding execute_task_stack
execute_task_stack-Planned zero s c c' planned h = absurd (cc)
execute_task_stack-Planned (suc n) s c c' planned h =
    popped-Planned s (execute_task_stack n s) c.task_stack c c'
      (λ d. execute_task_stack-Planned n s d c') planned refl h
