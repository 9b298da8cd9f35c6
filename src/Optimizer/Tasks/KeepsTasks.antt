-- ===== src/Optimizer/Tasks/KeepsTasks.antt =====
-- Every task keeps the operators and children of the expressions, and only `OptimizeInputs` sets a
-- winner.
use eva.Optimizer.Memo.Binder.{binder}
use eva.Optimizer.Memo.Context.{add_opr_to_group, replace_expression}
use eva.Optimizer.Memo.Defs.{
  Ref, GroupExpression, mark_rule_explored, is_rule_explored, Memo, expr_at,
}
use eva.Optimizer.Memo.Keeps.{Keeps, Keeps-refl, Keeps-trans, Keeps-set_expr}
use eva.Optimizer.Memo.KeepsContext.{Keeps-add_opr_to_group, Keeps-replace_expression}
use eva.Optimizer.Operators.{GroupId, Operator, Tree}
use eva.Optimizer.RewriteRules.PushDownFilterThroughApplyAndMerge.{plans}
use eva.Optimizer.Rules.RuleType.{RuleType}
use eva.Optimizer.Tasks.Costing.{
  follow_up, add_plans, apply_match, apply_matches, unless_explored, execute_apply_rule, push_all,
}
use eva.Optimizer.Tasks.Defs.{
  Rule, Task, top_down_rewrite, bottom_up_rewrite, OptimizerContext, push, sort_by_promise,
  valid_rules, mark, first_logical, push_children,
}
use eva.Optimizer.Tasks.Rewrites.{
  Flow, went_on, returned, after_plans, after_check, rewrite_matches, after_matches, rewrite_rules,
  then_children, then_nothing, execute_top_down, execute_bottom_up,
}
use eva.Prelude.{ℕ, ◌≡◌, refl, sym, ap, subst, ◌∙◌, Bool, true, false, List, [], ◌∷◌, get_elem?}
use eva.Prelude.Result.{unsupported, Result, ok, ok-injective, >>=-eq-ok, or_raise-eq-ok}

pub memo-push_all : (ts : List Task) (c : OptimizerContext) → (push_all ts c).memo ≡ c.memo
unfolding push
memo-push_all [] c = refl
memo-push_all (t ∷ ts) c = memo-push_all ts (push t c)

memo-push_children :
    (task : Ref → Task) (gs : List GroupId) (c c' : OptimizerContext)
    → push_children task gs c ≡ ok c'
    → c'.memo ≡ c.memo
unfolding push_children
memo-push_children task [] c c' h = sym (ap (λ (x : OptimizerContext). x.memo) (ok-injective h))
memo-push_children task (g ∷ gs) c c' h =
    let (child, p, q) = >>=-eq-ok (first_logical c.memo g) _ h in
    memo-push_children task gs (push (task child) c) c' q ∙ (unfold push in refl)

Keeps-eq : (m m' : Memo) → m' ≡ m → Keeps m m'
Keeps-eq m m' e = subst (Keeps m) (sym e) (Keeps-refl m)

Keeps-mark : (r : Ref) (t : RuleType) (m m' : Memo) → mark r t m ≡ ok m' → Keeps m m'
unfolding mark
Keeps-mark r t m m' h =
    let (e, p, q) = >>=-eq-ok (expr_at m r) _ h in
    subst (Keeps m) (ok-injective q) (
      Keeps-set_expr m r e (mark_rule_explored t e)
        (or_raise-eq-ok unsupported (get_elem? m.exprs r) p) (unfold mark_rule_explored in refl)
        (unfold mark_rule_explored in refl))

abbrev flow_memo : Flow → Memo
flow_memo (went_on c) = c.memo
flow_memo (returned c) = c.memo

-- a part of a task keeps what is there, whatever context it is in
abbrev KeepsFlow : (OptimizerContext → Result Flow) → Type 0
KeepsFlow step =
    (c : OptimizerContext) (flow : Flow) → step c ≡ ok flow → Keeps c.memo (flow_memo flow)

abbrev pub KeepsContext : (OptimizerContext → Result OptimizerContext) → Type 0
KeepsContext step = (c c' : OptimizerContext) → step c ≡ ok c' → Keeps c.memo c'.memo

module _ (hash : Operator → List GroupId → ℕ) where
  KeepsFlow-after_plans :
      (marks : Bool) (task : Ref → Task) (r : Ref) (rule : Rule)
      (next : OptimizerContext → Result Flow) (plans : List Tree)
      → KeepsFlow next
      → KeepsFlow (after_plans hash marks task r rule next plans)
  unfolding after_plans
  KeepsFlow-after_plans false task r rule next [] kn c flow h = kn c flow h
  KeepsFlow-after_plans true task r rule next [] kn c flow h =
      let (m, p, q) = >>=-eq-ok (mark r rule.rule_type c.memo) _ h in
      Keeps-trans c.memo m (flow_memo flow) (Keeps-mark r rule.rule_type c.memo m p)
        (kn (record c { memo = m }) flow q)
  KeepsFlow-after_plans marks task r rule next (plan ∷ []) kn c flow h =
      let (e, p, q) = >>=-eq-ok (expr_at c.memo r) _ h in
      let (done, u, v) = >>=-eq-ok (replace_expression hash plan e.group_id c.memo) _ q in
      subst (λ f. Keeps c.memo (flow_memo f)) (ok-injective v)
        (unfold push in Keeps-replace_expression hash plan e.group_id c.memo done u)
  KeepsFlow-after_plans marks task r rule next (plan ∷ second ∷ others) kn c flow h = absurd (cc)

  KeepsFlow-after_check :
      (marks : Bool) (task : Ref → Task) (r : Ref) (rule : Rule)
      (next : OptimizerContext → Result Flow) (t : Tree) (applies : Bool)
      → KeepsFlow next
      → KeepsFlow (after_check hash marks task r rule next t applies)
  unfolding after_check
  KeepsFlow-after_check marks task r rule next t false kn c flow h = kn c flow h
  KeepsFlow-after_check marks task r rule next t true kn c flow h =
      let (plans, p, q) = >>=-eq-ok (rule.apply t c.memo) _ h in
      KeepsFlow-after_plans marks task r rule next plans kn c flow q

  KeepsFlow-rewrite_matches :
      (marks : Bool) (task : Ref → Task) (r : Ref) (rule : Rule) (ts : List Tree)
      → KeepsFlow (rewrite_matches hash marks task r rule ts)
  unfolding rewrite_matches
  KeepsFlow-rewrite_matches marks task r rule [] c flow h =
      subst (λ f. Keeps c.memo (flow_memo f)) (ok-injective h) (Keeps-refl c.memo)
  KeepsFlow-rewrite_matches marks task r rule (t ∷ ts) c flow h =
      let (applies, p, q) = >>=-eq-ok (rule.check t c.memo) _ h in
      KeepsFlow-after_check marks task r rule (rewrite_matches hash marks task r rule ts) t applies
        (KeepsFlow-rewrite_matches marks task r rule ts) c flow q

  Keeps-after_matches :
      (marks : Bool) (r : Ref) (rule : Rule) (next : OptimizerContext → Result Flow)
      (before after : Flow)
      → KeepsFlow next
      → after_matches hash marks r rule next before ≡ ok after
      → Keeps (flow_memo before) (flow_memo after)
  unfolding after_matches
  Keeps-after_matches marks r rule next (returned c) after kn h =
      subst (λ f. Keeps c.memo (flow_memo f)) (ok-injective h) (Keeps-refl c.memo)
  Keeps-after_matches true r rule next (went_on c) after kn h = kn c after h
  Keeps-after_matches false r rule next (went_on c) after kn h =
      let (m, p, q) = >>=-eq-ok (mark r rule.rule_type c.memo) _ h in
      Keeps-trans c.memo m (flow_memo after) (Keeps-mark r rule.rule_type c.memo m p)
        (kn (record c { memo = m }) after q)

  KeepsFlow-rewrite_rules :
      (marks : Bool) (task : Ref → Task) (r : Ref) (rules : List Rule)
      → KeepsFlow (rewrite_rules hash marks task r rules)
  unfolding rewrite_rules
  KeepsFlow-rewrite_rules marks task r [] c flow h =
      subst (λ f. Keeps c.memo (flow_memo f)) (ok-injective h) (Keeps-refl c.memo)
  KeepsFlow-rewrite_rules marks task r (rule ∷ rules) c flow h =
      let (e, p, q) = >>=-eq-ok (expr_at c.memo r) _ h in
      let (matches, u, v) = >>=-eq-ok (binder c.memo rule.pattern e) _ q in
      let (before, w, x) = >>=-eq-ok (rewrite_matches hash marks task r rule matches c) _ v in
      Keeps-trans c.memo (flow_memo before) (flow_memo flow)
        (KeepsFlow-rewrite_matches marks task r rule matches c before w)
        (Keeps-after_matches marks r rule (rewrite_rules hash marks task r rules) before flow
          (KeepsFlow-rewrite_rules marks task r rules) x)

  Keeps-then_children :
      (task : Ref → Task) (gs : List GroupId) (flow : Flow) (c' : OptimizerContext)
      → then_children hash task gs flow ≡ ok c'
      → Keeps (flow_memo flow) c'.memo
  unfolding then_children
  Keeps-then_children task gs (returned c) c' h =
      Keeps-eq c.memo c'.memo (sym (ap (λ (x : OptimizerContext). x.memo) (ok-injective h)))
  Keeps-then_children task gs (went_on c) c' h =
      Keeps-eq c.memo c'.memo (memo-push_children task gs c c' h)

  Keeps-then_nothing :
      (flow : Flow) (c' : OptimizerContext)
      → then_nothing hash flow ≡ ok c'
      → Keeps (flow_memo flow) c'.memo
  unfolding then_nothing
  Keeps-then_nothing (returned c) c' h =
      Keeps-eq c.memo c'.memo (sym (ap (λ (x : OptimizerContext). x.memo) (ok-injective h)))
  Keeps-then_nothing (went_on c) c' h =
      Keeps-eq c.memo c'.memo (sym (ap (λ (x : OptimizerContext). x.memo) (ok-injective h)))

  pub KeepsContext-execute_top_down :
      (r : Ref) (rule_set : List Rule) → KeepsContext (execute_top_down hash r rule_set)
  unfolding execute_top_down
  KeepsContext-execute_top_down r rule_set c c' h =
      let task : Ref → Task = λ x. top_down_rewrite x rule_set in
      let (e, p, q) = >>=-eq-ok (expr_at c.memo r) _ h in
      let (flow, u, v) =
        >>=-eq-ok (rewrite_rules hash true task r (sort_by_promise (valid_rules e rule_set)) c) _
          q in
      Keeps-trans c.memo (flow_memo flow) c'.memo
        (KeepsFlow-rewrite_rules true task r (sort_by_promise (valid_rules e rule_set)) c flow u)
        (Keeps-then_children task e.children flow c' v)

  pub KeepsContext-execute_bottom_up :
      (r : Ref) (rule_set : List Rule) (b : Bool)
      → KeepsContext (execute_bottom_up hash r rule_set b)
  unfolding execute_bottom_up
  KeepsContext-execute_bottom_up r rule_set false c c' h =
      let task : Ref → Task = λ x. bottom_up_rewrite x rule_set false in
      let (e, p, q) = >>=-eq-ok (expr_at c.memo r) _ h in
      Keeps-eq c.memo c'.memo (
        memo-push_children task e.children (push (bottom_up_rewrite r rule_set true) c) c' q
        ∙ (unfold push in refl))
  KeepsContext-execute_bottom_up r rule_set true c c' h =
      let task : Ref → Task = λ x. bottom_up_rewrite x rule_set false in
      let (e, p, q) = >>=-eq-ok (expr_at c.memo r) _ h in
      let (flow, u, v) =
        >>=-eq-ok (rewrite_rules hash false task r (valid_rules e rule_set) c) _ q in
      Keeps-trans c.memo (flow_memo flow) c'.memo
        (KeepsFlow-rewrite_rules false task r (valid_rules e rule_set) c flow u)
        (Keeps-then_nothing flow c' v)

  KeepsContext-add_plans :
      (r : Ref) (explore : Bool) (plans : List Tree) → KeepsContext (add_plans hash r explore plans)
  unfolding add_plans
  KeepsContext-add_plans r explore [] c c' h =
      Keeps-eq c.memo c'.memo (sym (ap (λ (x : OptimizerContext). x.memo) (ok-injective h)))
  KeepsContext-add_plans r explore (plan ∷ plans) c c' h =
      let (e, p, q) = >>=-eq-ok (expr_at c.memo r) _ h in
      let (done, u, v) = >>=-eq-ok (add_opr_to_group hash plan e.group_id c.memo) _ q in
      let (e', w, x) = >>=-eq-ok (expr_at done.0 done.1) _ v in
      Keeps-trans c.memo done.0 c'.memo (Keeps-add_opr_to_group hash plan e.group_id c.memo done u)
        (subst (λ m. Keeps m c'.memo) (unfold push in refl)
          (KeepsContext-add_plans r explore plans
            (push (follow_up hash done.1 explore e') (record c { memo = done.0 })) c' x))

  KeepsContext-apply_match :
      (r : Ref) (explore : Bool) (rule : Rule) (next : OptimizerContext → Result OptimizerContext)
      (t : Tree) (applies : Bool)
      → KeepsContext next
      → KeepsContext (apply_match hash r explore rule next t applies)
  unfolding apply_match
  KeepsContext-apply_match r explore rule next t false kn c c' h = kn c c' h
  KeepsContext-apply_match r explore rule next t true kn c c' h =
      let (plans, p, q) = >>=-eq-ok (rule.apply t c.memo) _ h in
      let (c1, u, v) = >>=-eq-ok (add_plans hash r explore plans c) _ q in
      Keeps-trans c.memo c1.memo c'.memo (KeepsContext-add_plans r explore plans c c1 u)
        (kn c1 c' v)

  KeepsContext-apply_matches :
      (r : Ref) (explore : Bool) (rule : Rule) (ts : List Tree)
      → KeepsContext (apply_matches hash r explore rule ts)
  unfolding apply_matches
  KeepsContext-apply_matches r explore rule [] c c' h =
      Keeps-eq c.memo c'.memo (sym (ap (λ (x : OptimizerContext). x.memo) (ok-injective h)))
  KeepsContext-apply_matches r explore rule (t ∷ ts) c c' h =
      let (applies, p, q) = >>=-eq-ok (rule.check t c.memo) _ h in
      KeepsContext-apply_match r explore rule (apply_matches hash r explore rule ts) t applies
        (KeepsContext-apply_matches r explore rule ts) c c' q

  KeepsContext-unless_explored :
      (rule : Rule) (r : Ref) (explore : Bool) (e : GroupExpression) (explored : Bool)
      → KeepsContext (unless_explored hash rule r explore e explored)
  unfolding unless_explored
  KeepsContext-unless_explored rule r explore e true c c' h =
      Keeps-eq c.memo c'.memo (sym (ap (λ (x : OptimizerContext). x.memo) (ok-injective h)))
  KeepsContext-unless_explored rule r explore e false c c' h =
      let (matches, p, q) = >>=-eq-ok (binder c.memo rule.pattern e) _ h in
      let (c1, u, v) = >>=-eq-ok (apply_matches hash r explore rule matches c) _ q in
      let (m, w, x) = >>=-eq-ok (mark r rule.rule_type c1.memo) _ v in
      subst (λ (z : OptimizerContext). Keeps c.memo z.memo) (ok-injective x)
        (Keeps-trans c.memo c1.memo m (KeepsContext-apply_matches r explore rule matches c c1 u)
          (Keeps-mark r rule.rule_type c1.memo m w))

  pub KeepsContext-execute_apply_rule :
      (rule : Rule) (r : Ref) (explore : Bool)
      → KeepsContext (execute_apply_rule hash rule r explore)
  unfolding execute_apply_rule
  KeepsContext-execute_apply_rule rule r explore c c' h =
      let (e, p, q) = >>=-eq-ok (expr_at c.memo r) _ h in
      KeepsContext-unless_explored rule r explore e (is_rule_explored rule.rule_type e) c c' q
