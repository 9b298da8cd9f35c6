-- ===== src/Examples/Plans.antt =====
-- The theorems on the whole optimization, at a filter over a table and two implementation rules.
use eva.Examples.Conditions.{column, number, compare}
use eva.Expression.Types.{compare_greater, Expr}
use eva.Optimizer.Memo.Binder.{pattern_of, no_patterns, more_patterns, binder}
use eva.Optimizer.Memo.Defs.{GroupExpression, Winner, Group, Memo, empty_memo, expr_at}
use eva.Optimizer.Memo.Keeps.{best}
use eva.Optimizer.OperatorType.{opr_dummy, logicalget, logicalfilter}
use eva.Optimizer.Operators.{
  structured_data, LogicalOperator, get_opr, filter_opr, seq_scan_plan, predicate_plan, GroupId,
  Operator, logical_operator, physical_plan, dummy, is_logical, Tree, tree, no_trees, more_trees,
}
use eva.Optimizer.Rules.RuleType.{logical_get_to_seqscan, logical_filter_to_physical}
use eva.Optimizer.Tasks.Build.{Builds, stages_of, optimize-Builds}
use eva.Optimizer.Tasks.Costing.{
  execute_apply_rule, execute_optimize_expression, execute_optimize_group, execute_optimize_inputs,
}
use eva.Optimizer.Tasks.Defs.{
  Rule, top_match, optimize_group, optimize_inputs, OptimizerContext, matching_rules,
}
use eva.Optimizer.Tasks.Livelock.{NoneMatches, execute_task_stack_never_ends}
use eva.Optimizer.Tasks.PlanGenerator.{
  Settings, execute_task_stack, then_stage, rewrite_stages, costing_stage, start,
}
use eva.Optimizer.Tasks.Plans.{Planned}
use eva.Optimizer.Tasks.Rewrites.{execute_top_down, execute_bottom_up}
use eva.Optimizer.Tasks.Run.{execute_task_stack-Planned}
use eva.Prelude.{ℕ, zero, suc, ◌≡◌, refl, true, Option, none, some, List, [], ◌∷◌}
use eva.Prelude.Result.{Result, err, ok}

abbrev scan : LogicalOperator
scan = get_opr (record {
  video = record { alias_name = "t"; col_names = [] };
  table_obj = record { table_name = "t"; table_type = structured_data };
  alias = "t";
  predicate = none;
  target_list = none;
  sampling_rate = none;
  sampling_type = none;
})

abbrev over_three : Expr
over_three = compare compare_greater (column "t" "t.id") (number 3)

abbrev query : Tree
query =
    tree (logical_operator (filter_opr over_three))
      (more_trees (tree (logical_operator scan) no_trees) no_trees)

abbrev to_seq_scan : Tree → Memo → Result (List Tree)
to_seq_scan (tree (logical_operator (get_opr g)) ts) m =
    ok (tree (physical_plan (seq_scan_plan none none g.alias)) no_trees ∷ [])
to_seq_scan t m = ok []

abbrev to_predicate : Tree → Memo → Result (List Tree)
to_predicate (tree (logical_operator (filter_opr p)) ts) m =
    ok (tree (physical_plan (predicate_plan p)) ts ∷ [])
to_predicate t m = ok []

abbrev get_to_seqscan : Rule
get_to_seqscan = record {
  rule_type = logical_get_to_seqscan;
  pattern = pattern_of logicalget no_patterns;
  check = λ t m. ok true;
  apply = to_seq_scan;
}

abbrev filter_to_physical : Rule
filter_to_physical = record {
  rule_type = logical_filter_to_physical;
  pattern = pattern_of logicalfilter (more_patterns (pattern_of opr_dummy no_patterns) no_patterns);
  check = λ t m. ok true;
  apply = to_predicate;
}

abbrev hash : Operator → List GroupId → ℕ
hash (logical_operator (filter_opr p)) gs = 1
hash (logical_operator l) gs = 2
hash (physical_plan (predicate_plan p)) gs = 3
hash (physical_plan p) gs = 4
hash (dummy g o) gs = 5

abbrev settings : Settings
settings = record {
  hash = hash;
  calculate_cost = λ opr. 1;
  stage_one_rewrite_rules = [];
  stage_two_rewrite_rules = [];
  logical_rules = [];
  implementation_rules = get_to_seqscan ∷ filter_to_physical ∷ [];
}

abbrev memo_of : Result (Memo × GroupId) → Memo
memo_of (ok (m, g)) = m
memo_of (err e) = empty_memo

abbrev context_of : Option (Result OptimizerContext) → OptimizerContext
context_of (some (ok c)) = c
context_of _ = record { memo = empty_memo; task_stack = [] }

abbrev first_memo : Memo
unfolding start
first_memo = memo_of (start settings query)

abbrev last_context : OptimizerContext
unfolding start rewrite_stages costing_stage then_stage is_logical execute_top_down
    execute_bottom_up execute_optimize_group execute_optimize_expression execute_apply_rule binder
    execute_optimize_inputs top_match
last_context = context_of (stages_of 30 settings (first_memo, some 1))

abbrev root_winner : Winner
root_winner = record { cost = 2; grp_expr = 2 }

optimize-Builds_example : Builds last_context.memo (some 1)
unfolding start rewrite_stages costing_stage then_stage best is_logical execute_top_down
    execute_bottom_up execute_optimize_group execute_optimize_expression execute_apply_rule binder
    execute_optimize_inputs top_match
optimize-Builds_example =
    optimize-Builds 30 settings query first_memo 1 last_context root_winner refl refl refl

-- the memo and the root group of the query, before the last stage
abbrev before : OptimizerContext
before = record { memo = first_memo; task_stack = optimize_group 1 ∷ [] }

abbrev after : OptimizerContext
unfolding execute_task_stack start is_logical execute_optimize_group execute_optimize_expression
    execute_apply_rule binder execute_optimize_inputs top_match
after = context_of (execute_task_stack 30 settings before)

first_memo-Planned : Planned settings.calculate_cost first_memo
unfolding best start is_logical
first_memo-Planned zero w h = absurd (cc)
first_memo-Planned (suc zero) w h = absurd (cc)
first_memo-Planned (suc (suc g)) w h = absurd (cc)

execute_task_stack-Planned_example :
    Planned settings.calculate_cost after.memo × (after.task_stack ≡ [])
unfolding execute_task_stack start is_logical execute_optimize_group execute_optimize_expression
    execute_apply_rule binder execute_optimize_inputs top_match
execute_task_stack-Planned_example =
    execute_task_stack-Planned 30 settings before after first_memo-Planned refl

-- a filter over a table, for which there is no implementation rule
abbrev no_rules : Settings
no_rules = record settings { implementation_rules = [] }

abbrev scan_group : Group
scan_group = record {
  group_id = 0;
  aliases = "t" ∷ [];
  logical_exprs = 0 ∷ [];
  physical_exprs = [];
  winner = none;
}

abbrev filter_expr : GroupExpression
filter_expr = record {
  opr = physical_plan (predicate_plan over_three);
  group_id = some 1;
  children = some 0 ∷ [];
  rules_explored = [];
}

abbrev stuck_memo : Memo
stuck_memo = record {
  exprs =
      record { opr = logical_operator scan; group_id = some 0; children = []; rules_explored = [] }
      ∷ filter_expr
      ∷ [];
  groups = scan_group ∷ [];
  group_exprs = [];
}

no_match : NoneMatches no_rules stuck_memo (0 ∷ [])
unfolding expr_at matching_rules
no_match = (
  (
    record { opr = logical_operator scan; group_id = some 0; children = []; rules_explored = [] },
    refl,
    refl,
  ),
  tt,
)

execute_task_stack_never_ends_example :
    execute_task_stack 1000 no_rules
      (record { memo = stuck_memo; task_stack = optimize_inputs 1 ∷ [] })
    ≡ none
unfolding expr_at
execute_task_stack_never_ends_example =
    execute_task_stack_never_ends 1000 no_rules stuck_memo 1 filter_expr 0 [] scan_group [] refl
      refl refl refl refl no_match
