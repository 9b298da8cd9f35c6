-- ===== src/Examples/Joins.antt =====
-- The theorems on costs, on the order of predicates and on the joins, where a detector is called in a
-- condition.
use eva.Optimizer.RewriteRules.ReorderPredicates
use eva.Optimizer.RewriteRules.LogicalJoinToPhysicalHashJoin
use eva.Optimizer.RewriteRules.LogicalJoinToPhysicalNestedLoopJoin
use eva.Examples.Conditions.{column, number, compare, both}
use eva.Expression.Holds.{holds}
use eva.Expression.Traversal.{dfs, find_all, total, find_all-dfs}
use eva.Expression.Types.{
  invalid, compare_equal, compare_greater, function_expression, eq_type, function, Expr, node, nil,
  cons, etype,
}
use eva.Optimizer.ExecutionCost.{is_function_expression, get_expression_execution_cost}
use eva.Optimizer.Memo.Defs.{empty_memo}
use eva.Optimizer.Operators.{
  inner_join, Join, filter_opr, exchange_opr, logical_operator, dummy, Tree, tree, no_trees,
}
use eva.Optimizer.RewriteRules.LogicalJoinToPhysicalNestedLoopJoin.{has_join_plan, checks_divide}
use eva.Optimizer.RewriteRules.ReorderPredicates.{holds-apply_reorder}
use eva.Optimizer.RewriteRules.Shared.{node1}
use eva.Prelude.{
  ℕ, String, ◌≡◌, refl, Bool, true, false, ◌&&◌, ◌||◌, Option, none, some, List, [], ◌∷◌, arith,
  str_eq, if◌then◌else◌,
}
use eva.Prelude.Result.{ok}

abbrev call : String → Expr
call name = node (function name 1 none) function_expression invalid (cons (column "t" "t.data") nil)

abbrev slow_label : Expr
slow_label = compare compare_equal (call "Slow") (number 1)

abbrev fast_label : Expr
fast_label = compare compare_equal (call "Fast") (number 1)

abbrev over_three : Expr
over_three = compare compare_greater (column "t" "t.id") (number 3)

abbrev pub same_id : Expr
same_id = compare compare_equal (column "t" "t.id") (column "u" "u.id")

-- the catalog knows a cost of one function
abbrev catalog : String → Option ℕ
catalog name = if str_eq name "Fast" then some 5 else none

find_all-dfs_example :
    (es : List Expr) × (find_all is_function_expression 10 (both slow_label over_three) ≡ some es)
    × ((weight : Expr → ℕ)
        → total weight es
          ≡ total
              (λ x. if is_function_expression x then weight x else 0)
              (dfs (both slow_label over_three)))
unfolding dfs
find_all-dfs_example =
    find_all-dfs is_function_expression 10 (both slow_label over_three) (omega arith)

abbrev predicate : Expr
predicate = both (both slow_label fast_label) over_three

abbrev in_order : Expr
in_order = both (both over_three fast_label) slow_label

abbrev exchange : Tree
exchange = tree (dummy (some 0) (logical_operator exchange_opr)) no_trees

abbrev is_greater : Expr → Bool
is_greater e = eq_type (etype e) compare_greater

applied :
    ReorderPredicates.apply catalog (node1 (filter_opr predicate) exchange) empty_memo
    ≡ ok (node1 (filter_opr in_order) exchange ∷ [])
unfolding ReorderPredicates.apply find_all dfs get_expression_execution_cost
applied = refl

holds-apply_reorder_example :
    (ordered : Expr) × (node1 (filter_opr in_order) exchange ≡ node1 (filter_opr ordered) exchange)
    × (holds is_greater ordered ≡ holds is_greater predicate)
holds-apply_reorder_example =
    ReorderPredicates.holds-apply_reorder is_greater catalog predicate exchange empty_memo
      (node1 (filter_opr in_order) exchange) applied

abbrev pub inner : Join
inner = record {
  join_type = inner_join;
  join_predicate = some same_id;
  left_keys = [];
  right_keys = [];
  join_project = [];
}

checks_divide_example :
    ((true && false) ≡ false)
    × ((true || false)
        ≡ LogicalJoinToPhysicalNestedLoopJoin.has_join_plan inner_join (some same_id))
unfolding LogicalJoinToPhysicalHashJoin.check LogicalJoinToPhysicalNestedLoopJoin.check
checks_divide_example =
    LogicalJoinToPhysicalNestedLoopJoin.checks_divide inner no_trees empty_memo true false refl refl
