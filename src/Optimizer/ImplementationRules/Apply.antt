-- ===== src/Optimizer/ImplementationRules/Apply.antt =====
-- `apply` of every implementation rule of optimizer/rules/rules.py, with Ray or without. The environment
-- that Ray gives to its processes is left out.
use eva.Optimizer.RewriteRules.LogicalJoinToPhysicalHashJoin
use eva.Optimizer.RewriteRules.LogicalJoinToPhysicalNestedLoopJoin
use eva.Expression.Types.{Expr}
use eva.Optimizer.ExecutionCost.{is_function_expression}
use eva.Optimizer.ImplementationRules.Defs.{plan_over, implement_alone}
use eva.Optimizer.Memo.Defs.{Memo}
use eva.Optimizer.Operators.{
  Apply, LogicalOperator, project_opr, apply_and_merge_opr, apply_and_merge_plan, project_plan,
  exchange_plan, logical_operator, Tree, tree, Trees,
}
use eva.Optimizer.Rules.RuleType.{
  RuleType, logical_exchange_to_physical, logical_join_to_physical_hash_join,
  logical_join_to_physical_nested_loop_join, logical_project_to_physical,
  logical_apply_and_merge_to_physical,
}
use eva.Prelude.{Bool, true, false, ◌||◌, Option, none, some, List, [], ◌∷◌, if◌then◌else◌}
use eva.Prelude.Result.{attribute_error, unsupported, Result, err, ok}

abbrev pub apply_and_merge_to_ray_physical : Apply → Trees → Tree
apply_and_merge_to_ray_physical before ts =
    plan_over (exchange_plan (apply_and_merge_plan before) 2) ts

-- `any([isinstance(expr, FunctionExpression) for expr in before.target_list])`
abbrev pub any_function : List Expr → Bool
any_function [] = false
any_function (expr ∷ target_list) = is_function_expression expr || any_function target_list

abbrev pub project_to_ray_physical : List Expr → Trees → Tree
project_to_ray_physical target_list ts =
    if any_function target_list
    then plan_over (exchange_plan (project_plan target_list) 2) ts
    else plan_over (project_plan target_list) ts

-- `LogicalExchange` has no field `view`, which the rule reads
abbrev pub exchange_to_physical : Result (List Tree)
exchange_to_physical = err attribute_error

abbrev pub as_plans : Option Tree → Result (List Tree)
as_plans none = err unsupported
as_plans (some plan) = ok (plan ∷ [])

-- `Rule.apply`, by the type of the rule and the operator that its pattern has matched; with Ray two rules
-- are replaced
unfoldable pub implement : Bool → Memo → RuleType → LogicalOperator → Trees → Result (List Tree)
unfolding implement_alone LogicalJoinToPhysicalHashJoin.apply
    LogicalJoinToPhysicalNestedLoopJoin.apply
implement ray m logical_join_to_physical_hash_join opr ts =
    LogicalJoinToPhysicalHashJoin.apply (tree (logical_operator opr) ts) m
implement ray m logical_join_to_physical_nested_loop_join opr ts =
    LogicalJoinToPhysicalNestedLoopJoin.apply (tree (logical_operator opr) ts) m
implement ray m logical_exchange_to_physical opr ts = exchange_to_physical
implement true m logical_apply_and_merge_to_physical (apply_and_merge_opr before) ts =
    ok (apply_and_merge_to_ray_physical before ts ∷ [])
implement true m logical_project_to_physical (project_opr target_list) ts =
    ok (project_to_ray_physical target_list ts ∷ [])
implement ray m rule opr ts = as_plans (implement_alone rule opr ts)
