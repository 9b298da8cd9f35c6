-- ===== src/Optimizer/ImplementationRules/Conditions.antt =====
-- An implementation rule keeps the conditions of the operator that it replaces.
use eva.Optimizer.RewriteRules.LogicalJoinToPhysicalHashJoin
use eva.Optimizer.RewriteRules.LogicalJoinToPhysicalNestedLoopJoin
use eva.Expression.Conjunction.Meaning.{holds_opt}
use eva.Expression.Holds.{holds}
use eva.Expression.Types.{Expr}
use eva.Optimizer.ImplementationRules.Alone.{passes-implement_alone}
use eva.Optimizer.ImplementationRules.Apply.{
  any_function, project_to_ray_physical, as_plans, implement,
}
use eva.Optimizer.ImplementationRules.Defs.{implement_alone}
use eva.Optimizer.Memo.Defs.{Memo}
use eva.Optimizer.Operators.{
  Join, LogicalOperator, project_opr, join_opr, apply_and_merge_opr, logical_type, logical_operator,
  dummy, Tree, tree, Trees, no_trees, more_trees,
}
use eva.Optimizer.RewriteRules.LogicalJoinToPhysicalHashJoin.{plan_of_join, plan_of_join-keys}
use eva.Optimizer.RewriteRules.Shared.{group_aliases, passes, only_plan}
use eva.Optimizer.Rules.RuleType.{
  RuleType, logical_exchange_to_physical, logical_join_to_physical_hash_join,
  logical_join_to_physical_nested_loop_join, logical_project_to_physical,
  logical_apply_and_merge_to_physical,
}
use eva.Optimizer.StatementToPlan.Coverage.{fits, count_trees}
use eva.Prelude.{
  String, ◌≡◌, refl, sym, ap, ◌∙◌, inl, inr, Bool, true, ◌&&◌, Option, none, some, List, [], ◌∷◌,
  Bool-cases, and_true,
}
use eva.Prelude.Result.{ok, >>=-eq-ok}

-- what `implement` makes of the rules that stand alone
made_alone :
    (made : Option Tree) (after : Tree) → as_plans made ≡ ok (after ∷ []) → made ≡ some after
made_alone none after h = absurd (cc)
made_alone (some plan) after h = cc

passes-plan_of_join :
    (atom : Expr → Bool) (join : Join) (p : Option Expr) (a b plan : Tree) (la ra : List String)
    → plan_of_join join p a b la ra ≡ ok plan
    → passes atom plan ≡ (holds_opt atom p && (passes atom a && (passes atom b && true)))
unfolding passes
passes-plan_of_join atom join p a b plan la ra h =
    let (e, ls, rs, is, keys, shape) = plan_of_join-keys join p a b plan la ra h in
    ap (passes atom) (sym shape)
    ∙ ap (λ x. holds atom e && (x && (passes atom b && true))) (and_true (passes atom a))
    ∙ ap (λ q. holds_opt atom q && (passes atom a && (passes atom b && true))) (sym is)

passes-hash_join :
    (atom : Expr → Bool) (opr : LogicalOperator) (ts : Trees) (m : Memo) (after : Tree)
    → LogicalJoinToPhysicalHashJoin.apply (tree (logical_operator opr) ts) m ≡ ok (after ∷ [])
    → passes atom after ≡ passes atom (tree (logical_operator opr) ts)
unfolding passes LogicalJoinToPhysicalHashJoin.apply
passes-hash_join atom (join_opr join)
      (more_trees (tree (dummy g o) us) (more_trees (tree (dummy h p) vs) no_trees)) m after e =
    let (la, found_left, e1) = >>=-eq-ok (group_aliases m g) _ e in
    let (ra, found_right, e2) = >>=-eq-ok (group_aliases m h) _ e1 in
    let (plan, made, same) =
      >>=-eq-ok
        (plan_of_join join join.join_predicate (tree (dummy g o) us) (tree (dummy h p) vs) la ra) _
        e2 in
    ap (passes atom) (only_plan after plan (sym same))
    ∙ passes-plan_of_join atom join join.join_predicate (tree (dummy g o) us) (tree (dummy h p) vs)
        plan la ra made
passes-hash_join atom opr ts m after e = absurd (cc)

passes-nested_loop :
    (atom : Expr → Bool) (opr : LogicalOperator) (ts : Trees) (m : Memo) (after : Tree)
    → LogicalJoinToPhysicalNestedLoopJoin.apply (tree (logical_operator opr) ts) m ≡ ok (after ∷ [])
    → passes atom after ≡ passes atom (tree (logical_operator opr) ts)
unfolding passes LogicalJoinToPhysicalNestedLoopJoin.apply
passes-nested_loop atom (join_opr join) (more_trees lhs (more_trees rhs no_trees)) m after e =
    ap (passes atom) (only_plan after _ (sym e))
passes-nested_loop atom opr ts m after e = absurd (cc)

passes-project_to_ray :
    (atom : Expr → Bool) (target_list : List Expr) (ts : Trees)
    → passes atom (project_to_ray_physical target_list ts)
      ≡ passes atom (tree (logical_operator (project_opr target_list)) ts)
unfolding passes
passes-project_to_ray atom target_list ts = elim (Bool-cases (any_function target_list)) [
  | inl e ↦ rw e refl
  | inr e ↦ rw e refl
]

-- The plan that an implementation rule makes of an operator, with as many children as its pattern
-- has, lets the same rows pass as the operator did, with Ray or without.
pub passes-implement :
    (atom : Expr → Bool) (ray : Bool) (m : Memo) (rule : RuleType) (opr : LogicalOperator)
    (ts : Trees) (after : Tree)
    → fits rule (logical_type opr) (count_trees ts) ≡ true
    → implement ray m rule opr ts ≡ ok (after ∷ [])
    → passes atom after ≡ passes atom (tree (logical_operator opr) ts)
unfolding implement
passes-implement atom ray m logical_join_to_physical_hash_join opr ts after h e =
    passes-hash_join atom opr ts m after e
passes-implement atom ray m logical_join_to_physical_nested_loop_join opr ts after h e =
    passes-nested_loop atom opr ts m after e
passes-implement atom ray m logical_exchange_to_physical opr ts after h e = absurd (cc)
passes-implement atom true m logical_apply_and_merge_to_physical (apply_and_merge_opr before) ts
      after h e =
    unfold passes in ap (passes atom) (only_plan after _ (sym e))
passes-implement atom true m logical_project_to_physical (project_opr target_list) ts after h e =
    ap (passes atom) (only_plan after _ (sym e)) ∙ passes-project_to_ray atom target_list ts
passes-implement atom ray m rule opr ts after h e =
    passes-implement_alone atom rule opr ts after h
      (made_alone (implement_alone rule opr ts) after e)
