-- ===== src/Optimizer/Tasks/Build.antt =====
-- The plan of a group that has a winner is built.
use eva.Optimizer.Memo.Context.{add_opr_to_group}
use eva.Optimizer.Memo.Defs.{Ref, GroupExpression, Winner, Memo, empty_memo, expr_at}
use eva.Optimizer.Memo.Keeps.{winner_of, best}
use eva.Optimizer.Memo.KeepsContext.{Keeps-add_opr_to_group}
use eva.Optimizer.Operators.{GroupId, Operator, Tree}
use eva.Optimizer.Tasks.Defs.{
  Task, top_down_rewrite, bottom_up_rewrite, optimize_group, OptimizerContext, push, first_logical,
}
use eva.Optimizer.Tasks.KeepsPlanned.{best-at}
use eva.Optimizer.Tasks.PlanGenerator.{
  Settings, then_run, execute_task_stack, Edges, best_with_expr, append_children,
  build_optimal_physical_plan, then_stage, with_root, rewrite_stages, costing_stage, start,
}
use eva.Optimizer.Tasks.Plans.{Plan, plan_of, Plans, no_plans, more_plans, Planned, Planned-Keeps}
use eva.Optimizer.Tasks.Run.{then_run-eq-ok, execute_task_stack-Planned}
use eva.Prelude.{
  ℕ, zero, suc, ◌+◌, ◌≤◌, ◌≡◌, refl, sym, ap, subst, ◌∙◌, inl, inr, false, Option, none, some, List,
  [], ◌∷◌, ◌++◌, arith, Option-cases, get_elem?,
}
use eva.Prelude.Result.{Result, err, ok, ok-injective, >>=-eq-ok}

-- the build ends and raises nothing, with so much fuel or more
abbrev pub Builds : Memo → GroupId → Type 0
Builds m g =
    (fuel : ℕ) × ((n : ℕ) (es : Edges)
      → fuel ≤ n
      → (r : Ref) × (es' : Edges) × (build_optimal_physical_plan n m g es ≡ some (ok (r, es'))))

abbrev BuildsAll : Memo → List GroupId → Type 0
BuildsAll m gs =
    (fuel : ℕ) × ((n : ℕ) (r : Ref) (es : Edges)
      → fuel ≤ n
      → (es' : Edges) × (append_children (build_optimal_physical_plan n m) r gs es ≡ some (ok es')))

best-none : (m : Memo) (g : ℕ) → get_elem? m.groups g ≡ none → best m g ≡ none
unfolding best
best-none m g h = ap winner_of h

best_with_expr-best :
    (m : Memo) (g : ℕ) (w : Winner) (e : GroupExpression)
    → best m g ≡ some w
    → get_elem? m.exprs w.grp_expr ≡ some e
    → best_with_expr m (some g) ≡ ok (w.grp_expr, e)
unfolding best_with_expr
best_with_expr-best m g w e hb he = elim (Option-cases (get_elem? m.groups g)) [
  | inl p ↦ absurd (no_group p)
  | inr (grp, p) ↦ let q : grp.winner ≡ some w = sym (best-at m g grp p) ∙ hb in rw (p, q, he)
]
  where
    no_group : get_elem? m.groups g ≡ none → ⊥
    no_group p = let z : none ≡ some w = sym (best-none m g p) ∙ hb in cc

Builds-plan_of :
    (m : Memo) (g : ℕ) (w : Winner) (e : GroupExpression)
    → best_with_expr m (some g) ≡ ok (w.grp_expr, e)
    → BuildsAll m e.children
    → Builds m (some g)
Builds-plan_of m g w e h (fuel, all) = (suc fuel, step)
  where
    step :
        (n : ℕ) (es : Edges)
        → suc fuel ≤ n
        → (r : Ref) × (es' : Edges) × (build_optimal_physical_plan n m (some g) es
            ≡ some (ok (r, es')))
    step zero es k = absurd (omega arith)
    step (suc n) es k =
        let (es', p) = all n w.grp_expr es (omega arith) in
        (w.grp_expr, es', unfold build_optimal_physical_plan in rw (h, p))

BuildsAll-nil : (m : Memo) → BuildsAll m []
BuildsAll-nil m = (0, λ n r es h. (es, unfold append_children in refl))

BuildsAll-cons :
    (m : Memo) (g : GroupId) (gs : List GroupId)
    → Builds m g
    → BuildsAll m gs
    → BuildsAll m (g ∷ gs)
BuildsAll-cons m g gs (f1, one) (f2, all) = (f1 + f2, step)
  where
    step :
        (n : ℕ) (r : Ref) (es : Edges)
        → f1 + f2 ≤ n
        → (es' : Edges) × (append_children (build_optimal_physical_plan n m) r (g ∷ gs) es
            ≡ some (ok es'))
    step n r es k =
        let (child, es1, p) = one n es (omega arith) in
        let (es2, q) = all n r (es1 ++ (r, child) ∷ []) (omega arith) in
        (es2, unfold append_children in rw (p, q))

mutual
  Plan-Builds :
      {cost : Operator → ℕ} {m : Memo} {g : GroupId} {c : ℕ} → Plan cost m g c → Builds m g
  Plan-Builds {m = m} (plan_of {g} w e t hb he k ps) =
      Builds-plan_of m g w e (best_with_expr-best m g w e hb he) (Plans-Builds ps)

  Plans-Builds :
      {cost : Operator → ℕ} {m : Memo} {gs : List GroupId} {t : ℕ}
      → Plans cost m gs t
      → BuildsAll m gs
  Plans-Builds no_plans = BuildsAll-nil _
  Plans-Builds (more_plans c s p ps h) = BuildsAll-cons _ _ _ (Plan-Builds p) (Plans-Builds ps)

-- Whatever the rules and the costs: when the task stack has run empty, from a memo whose winners make
-- up plans, the plan of every group with a winner is built, and neither loops nor raises.
pub build-execute_task_stack :
    (n : ℕ) (s : Settings) (c c' : OptimizerContext) (g : ℕ) (w : Winner)
    → Planned s.calculate_cost c.memo
    → execute_task_stack n s c ≡ some (ok c')
    → best c'.memo g ≡ some w
    → Builds c'.memo (some g)
build-execute_task_stack n s c c' g w planned h hb =
    Plan-Builds ((execute_task_stack-Planned n s c c' planned h).0 g w hb)

-- the memo that `optimize` starts with
start-Planned :
    (s : Settings) (t : Tree) (done : Memo × GroupId)
    → start s t ≡ ok done
    → Planned s.calculate_cost done.0
unfolding start
start-Planned s t done h =
    let (added, p, q) = >>=-eq-ok (add_opr_to_group s.hash t none empty_memo) _ h in
    let (e, u, v) = >>=-eq-ok (expr_at added.0 added.1) _ q in
    subst (λ (d : Memo × GroupId). Planned s.calculate_cost d.0) (ok-injective v)
      (Planned-Keeps s.calculate_cost empty_memo added.0
        (Keeps-add_opr_to_group s.hash t none empty_memo added p)
        (λ g w hb. absurd (let z : none ≡ some w = sym (best-none empty_memo g refl) ∙ hb in cc)))

-- pushing a task does not touch the memo
Planned-push :
    (s : Settings) (t : Task) (c : OptimizerContext)
    → Planned s.calculate_cost c.memo
    → Planned s.calculate_cost (push t c).memo
unfolding push
Planned-push s t c h = h

with_root-Planned :
    (s : Settings) (task : Ref → Task) (g : GroupId) (c c' : OptimizerContext)
    → Planned s.calculate_cost c.memo
    → with_root task g c ≡ ok c'
    → Planned s.calculate_cost c'.memo
unfolding with_root
with_root-Planned s task g c c' planned h =
    let (r, p, q) = >>=-eq-ok (first_logical c.memo g) _ h in
    subst (λ (x : OptimizerContext). Planned s.calculate_cost x.memo) (ok-injective q)
      (Planned-push s (task r) c planned)

then_stage-Planned :
    (n : ℕ) (s : Settings) (r : Option (Result OptimizerContext))
    (next : OptimizerContext → Option (Result OptimizerContext)) (c' : OptimizerContext)
    → ((c : OptimizerContext) → r ≡ some (ok c) → Planned s.calculate_cost c.memo)
    → ((c : OptimizerContext)
        → Planned s.calculate_cost c.memo
        → next c ≡ some (ok c')
        → Planned s.calculate_cost c'.memo)
    → then_stage r next ≡ some (ok c')
    → Planned s.calculate_cost c'.memo
unfolding then_stage
then_stage-Planned n s none next c' hr hn h = absurd (cc)
then_stage-Planned n s (some (err e)) next c' hr hn h = absurd (ground arith)
then_stage-Planned n s (some (ok c)) next c' hr hn h = hn c (hr c refl) h

rooted-Planned :
    (n : ℕ) (s : Settings) (task : Ref → Task) (g : GroupId) (c c' : OptimizerContext)
    → Planned s.calculate_cost c.memo
    → then_run (with_root task g c) (execute_task_stack n s) ≡ some (ok c')
    → Planned s.calculate_cost c'.memo
rooted-Planned n s task g c c' planned h =
    let (d, p, q) = then_run-eq-ok (with_root task g c) (execute_task_stack n s) h in
    (execute_task_stack-Planned n s d c' (with_root-Planned s task g c d planned p) q).0

rewrite_stages-Planned :
    (n : ℕ) (s : Settings) (g : GroupId) (c c' : OptimizerContext)
    → Planned s.calculate_cost c.memo
    → rewrite_stages n s g c ≡ some (ok c')
    → Planned s.calculate_cost c'.memo
unfolding rewrite_stages
rewrite_stages-Planned n s g c c' planned h =
    then_stage-Planned n s
      (then_run (with_root (λ r. top_down_rewrite r s.stage_one_rewrite_rules) g c)
        (execute_task_stack n s))
      (λ c1.
        then_run (with_root (λ r. bottom_up_rewrite r s.stage_two_rewrite_rules false) g c1)
          (execute_task_stack n s))
      c'
      (λ c1. rooted-Planned n s (λ r. top_down_rewrite r s.stage_one_rewrite_rules) g c c1 planned)
      (λ c1 p.
        rooted-Planned n s (λ r. bottom_up_rewrite r s.stage_two_rewrite_rules false) g c1 c' p)
      h

costing_stage-Planned :
    (n : ℕ) (s : Settings) (g : GroupId) (c c' : OptimizerContext)
    → Planned s.calculate_cost c.memo
    → costing_stage n s g c ≡ some (ok c')
    → Planned s.calculate_cost c'.memo
unfolding costing_stage
costing_stage-Planned n s none c c' planned h = absurd (ground arith)
costing_stage-Planned n s (some g) c c' planned h =
    (execute_task_stack-Planned n s (push (optimize_group g) c) c'
      (Planned-push s (optimize_group g) c planned) h).0

-- the three stages from a logical plan
abbrev pub stages_of : ℕ → Settings → Memo × GroupId → Option (Result OptimizerContext)
stages_of n s (m, g) =
    then_stage (rewrite_stages n s g (record { memo = m; task_stack = [] })) (costing_stage n s g)

-- Whatever the rules, the costs and the logical plan: if the three stages end without an exception and
-- leave the root group a winner, then the physical plan is built, and the build neither loops nor
-- raises.
pub optimize-Builds :
    (n : ℕ) (s : Settings) (t : Tree) (m : Memo) (g : ℕ) (c : OptimizerContext) (w : Winner)
    → start s t ≡ ok (m, some g)
    → stages_of n s (m, some g) ≡ some (ok c)
    → best c.memo g ≡ some w
    → Builds c.memo (some g)
optimize-Builds n s t m g c w started ended hb =
    let c0 : OptimizerContext = record { memo = m; task_stack = [] } in
    let planned : Planned s.calculate_cost c.memo =
      then_stage-Planned n s (rewrite_stages n s (some g) c0) (costing_stage n s (some g)) c
        (λ c1. rewrite_stages-Planned n s (some g) c0 c1 (start-Planned s t (m, some g) started))
        (λ c1. costing_stage-Planned n s (some g) c1 c) ended in
    Plan-Builds (planned g w hb)
