-- ===== src/Optimizer/Tasks/KeepsPlanned.antt =====
-- Every task leaves whole plans behind.
use eva.Optimizer.ExecutionCost.{calculate_cost}
use eva.Optimizer.Memo.Defs.{
  Ref, GroupExpression, Winner, Group, Memo, group_at, expr_at, set_group, new_winner,
  cheaper_winner, add_expr_cost,
}
use eva.Optimizer.Memo.Keeps.{winner_of, best, Keeps-set_group}
use eva.Optimizer.Operators.{GroupId, Operator}
use eva.Optimizer.Tasks.Costing.{
  execute_apply_rule, expression_tasks, execute_optimize_expression, group_tasks, unless_winner,
  execute_optimize_group, add_cost, child_cost, children_cost, record_cost, after_children,
  execute_optimize_inputs,
}
use eva.Optimizer.Tasks.Defs.{
  Rule, Task, top_down_rewrite, bottom_up_rewrite, optimize_expression, apply_rule, optimize_group,
  optimize_inputs, OptimizerContext, push,
}
use eva.Optimizer.Tasks.KeepsTasks.{
  memo-push_all, KeepsContext, KeepsContext-execute_top_down, KeepsContext-execute_bottom_up,
  KeepsContext-execute_apply_rule,
}
use eva.Optimizer.Tasks.PlanGenerator.{Settings, execute}
use eva.Optimizer.Tasks.Plans.{
  Plans, no_plans, more_plans, Planned, Planned-Keeps, Planned-with_winner,
}
use eva.Optimizer.Tasks.Rewrites.{execute_top_down, execute_bottom_up}
use eva.Prelude.{
  ℕ, ◌+◌, ◌≤◌, ◌<◌, ◌≡◌, refl, sym, ap, subst, ◌∙◌, ◌⊎◌, inl, inr, Bool, true, Option, none, some,
  List, [], ◌∷◌, ◌++◌, arith, ltb, if◌then◌else◌, Bool-cases, get_elem?,
}
use eva.Prelude.Result.{
  attribute_error, unsupported, Result, ok, or_raise, ok-injective, >>=-eq-ok, or_raise-eq-ok,
}

add_cost-inl :
    (w cost : ℕ) (rest : ℕ ⊎ ℕ)
    → add_cost w rest ≡ inl cost
    → (s : ℕ) × (rest ≡ inl s) × (w + s ≤ cost)
add_cost-inl w cost (inl s) h = (s, refl, ground arith)
add_cost-inl w cost (inr child) h = absurd (cc)

module _ (own : Operator → ℕ) (m : Memo) (planned : Planned own m) where
  Plans-child :
      (g : ℕ) (gs : List GroupId) (cost : ℕ) (o : Option Winner) (next : Result (ℕ ⊎ ℕ))
      → best m g ≡ o
      → ((s : ℕ) → next ≡ ok (inl s) → Plans own m gs s)
      → child_cost g o next ≡ ok (inl cost)
      → Plans own m (some g ∷ gs) cost
  unfolding child_cost
  Plans-child g gs cost none next at rest h = absurd (cc)
  Plans-child g gs cost (some w) next at rest h =
      let (sum, p, q) = >>=-eq-ok next _ h in
      let (s, u, v) = add_cost-inl w.cost cost sum (ok-injective q) in
      more_plans w.cost s (planned g w at) (rest s (p ∙ ap ok u)) v

  -- the costs that `OptimizeInputs` adds up are those of plans of the children
  children_cost-Plans :
      (gs : List GroupId) (cost : ℕ) → children_cost m gs ≡ ok (inl cost) → Plans own m gs cost
  unfolding children_cost
  children_cost-Plans [] cost h = no_plans
  children_cost-Plans (none ∷ gs) cost h = absurd (cc)
  children_cost-Plans (some g ∷ gs) cost h =
      let (grp, p, q) = >>=-eq-ok (or_raise attribute_error (get_elem? m.groups g)) _ h in
      Plans-child g gs cost grp.winner (children_cost m gs)
        (unfold best in ap winner_of (or_raise-eq-ok attribute_error (get_elem? m.groups g) p))
        (children_cost-Plans gs) q

cheaper_winner_cases :
    (r : Ref) (cost : ℕ) (o : Option Winner)
    → (cheaper_winner r cost o ≡ o)
      ⊎ ((cheaper_winner r cost o ≡ some (new_winner r cost))
          × ((w : Winner) → o ≡ some w → cost < w.cost))
unfolding cheaper_winner
cheaper_winner_cases r cost none = inr (refl, λ w h. absurd (cc))
cheaper_winner_cases r cost (some w) = elim (Bool-cases (ltb cost w.cost)) [
  | inl h ↦ inr (rw h, λ w' e. below w w' e h)
  | inr h ↦ inl (rw h)
]
  where
    below : (w w' : Winner) → some w ≡ some w' → ltb cost w.cost ≡ true → cost < w'.cost
    below w w' e h = ground arith

pub best-at :
    (m : Memo) (g : ℕ) (grp : Group) → get_elem? m.groups g ≡ some grp → best m g ≡ grp.winner
unfolding best
best-at m g grp h = ap winner_of h

-- A recorded cost keeps the plans whole: the new winner is taken only if it is cheaper.
Planned-add_expr_cost :
    (own : Operator → ℕ) (m : Memo) (g : ℕ) (grp : Group) (r : Ref) (e : GroupExpression)
    (cost t : ℕ)
    → Planned own m
    → get_elem? m.groups g ≡ some grp
    → get_elem? m.exprs r ≡ some e
    → own e.opr + t ≤ cost
    → Plans own m e.children t
    → Planned own (set_group g (add_expr_cost r cost grp) m)
unfolding add_expr_cost
Planned-add_expr_cost own m g grp r e cost t planned here at bound ps =
    elim (cheaper_winner_cases r cost grp.winner) [
      | inl (same) ↦
          Planned-Keeps own m (set_group g (add_expr_cost r cost grp) m)
            (Keeps-set_group m g grp (add_expr_cost r cost grp) here same) planned
      | inr (fresh, below) ↦
          subst (λ (o : Option Winner). Planned own (set_group g (record grp { winner = o }) m))
            (sym fresh)
            (Planned-with_winner own m g grp (new_winner r cost) e here at
              (λ w hb. below w (sym (best-at m g grp here) ∙ hb)) t bound ps planned)
    ]

record_cost-Planned :
    (own : Operator → ℕ) (r : Ref) (e : GroupExpression) (cost t : ℕ) (g : GroupId)
    (c c' : OptimizerContext)
    → Planned own c.memo
    → get_elem? c.memo.exprs r ≡ some e
    → own e.opr + t ≤ cost
    → Plans own c.memo e.children t
    → record_cost r cost g c ≡ ok c'
    → Planned own c'.memo
unfolding record_cost
record_cost-Planned own r e cost t none c c' planned at bound ps h = absurd (cc)
record_cost-Planned own r e cost t (some g) c c' planned at bound ps h =
    let (grp, p, q) = >>=-eq-ok (or_raise attribute_error (get_elem? c.memo.groups g)) _ h in
    subst (λ (x : OptimizerContext). Planned own x.memo) (ok-injective q)
      (Planned-add_expr_cost own c.memo g grp r e cost t planned
        (or_raise-eq-ok attribute_error (get_elem? c.memo.groups g) p) at bound ps)

-- a task leaves the plans whole
abbrev pub KeepsPlanned : (Operator → ℕ) → (OptimizerContext → Result OptimizerContext) → Type 0
KeepsPlanned own step =
    (c c' : OptimizerContext) → Planned own c.memo → step c ≡ ok c' → Planned own c'.memo

from_keeps :
    (own : Operator → ℕ) (step : OptimizerContext → Result OptimizerContext)
    → KeepsContext step
    → KeepsPlanned own step
from_keeps own step k c c' planned h = Planned-Keeps own c.memo c'.memo (k c c' h) planned

KeepsPlanned-optimize_inputs :
    (calculate_cost : Operator → ℕ) (r : Ref)
    → KeepsPlanned calculate_cost (execute_optimize_inputs calculate_cost r)
unfolding execute_optimize_inputs expr_at
KeepsPlanned-optimize_inputs calculate_cost r c c' planned h =
    let (e, p, q) = >>=-eq-ok (expr_at c.memo r) _ h in
    let (costs, u, v) = >>=-eq-ok (children_cost c.memo e.children) _ q in
    after e costs (or_raise-eq-ok unsupported (get_elem? c.memo.exprs r) p) u v
  where
    after :
        (e : GroupExpression) (costs : ℕ ⊎ ℕ)
        → get_elem? c.memo.exprs r ≡ some e
        → children_cost c.memo e.children ≡ ok costs
        → after_children calculate_cost r e costs c ≡ ok c'
        → Planned calculate_cost c'.memo
    after e (inr child) at u v =
        subst (λ (x : OptimizerContext). Planned calculate_cost x.memo) (ok-injective v)
          (unfold push in planned)
    after e (inl cost) at u v =
        record_cost-Planned calculate_cost r e (cost + calculate_cost e.opr) cost e.group_id c c'
          planned at (omega arith)
          (children_cost-Plans calculate_cost c.memo planned e.children cost u) v

KeepsPlanned-optimize_expression :
    (own : Operator → ℕ) (logical_rules implementation_rules : List Rule) (r : Ref) (explore : Bool)
    → KeepsPlanned own (execute_optimize_expression logical_rules implementation_rules r explore)
unfolding execute_optimize_expression
KeepsPlanned-optimize_expression own logical_rules implementation_rules r explore c c' planned h =
    let rules : List Rule =
      if explore then logical_rules else logical_rules ++ implementation_rules in
    let (e, p, q) = >>=-eq-ok (expr_at c.memo r) _ h in
    subst (Planned own)
      (sym (memo-push_all (expression_tasks rules r explore e.opr) c)
        ∙ ap (λ (x : OptimizerContext). x.memo) (ok-injective q))
      planned

memo-unless_winner :
    (o : Option Winner) (ts : List Task) (c : OptimizerContext)
    → (unless_winner o ts c).memo ≡ c.memo
unfolding unless_winner
memo-unless_winner none ts c = memo-push_all ts c
memo-unless_winner (some w) ts c = refl

KeepsPlanned-optimize_group :
    (own : Operator → ℕ) (g : ℕ) → KeepsPlanned own (execute_optimize_group g)
unfolding execute_optimize_group
KeepsPlanned-optimize_group own g c c' planned h =
    let (grp, p, q) = >>=-eq-ok (group_at c.memo (some g)) _ h in
    subst (Planned own)
      (sym (memo-unless_winner grp.winner (group_tasks grp) c)
        ∙ ap (λ (x : OptimizerContext). x.memo) (ok-injective q))
      planned

-- Every task, whatever the rules, leaves the plans whole.
pub KeepsPlanned-execute : (s : Settings) (t : Task) → KeepsPlanned s.calculate_cost (execute s t)
unfolding execute
KeepsPlanned-execute s (top_down_rewrite r rule_set) =
    from_keeps s.calculate_cost (execute_top_down s.hash r rule_set)
      (KeepsContext-execute_top_down s.hash r rule_set)
KeepsPlanned-execute s (bottom_up_rewrite r rule_set b) =
    from_keeps s.calculate_cost (execute_bottom_up s.hash r rule_set b)
      (KeepsContext-execute_bottom_up s.hash r rule_set b)
KeepsPlanned-execute s (optimize_expression r explore) =
    KeepsPlanned-optimize_expression s.calculate_cost s.logical_rules s.implementation_rules r
      explore
KeepsPlanned-execute s (apply_rule rule r explore) =
    from_keeps s.calculate_cost (execute_apply_rule s.hash rule r explore)
      (KeepsContext-execute_apply_rule s.hash rule r explore)
KeepsPlanned-execute s (optimize_group g) = KeepsPlanned-optimize_group s.calculate_cost g
KeepsPlanned-execute s (optimize_inputs r) = KeepsPlanned-optimize_inputs s.calculate_cost r
