-- ===== src/Examples/Statements.antt =====
-- The theorems on the conversion of statements, at
-- `SELECT t.id FROM t JOIN (SELECT * FROM u) AS v ON t.id = u.id WHERE t.id > 3 LIMIT 2`, and that no
-- rule implements a sample.
use eva.Examples.Conditions.{column, number, compare}
use eva.Expression.Types.{compare_equal, compare_greater, eq_type, integer, Expr, etype}
use eva.Optimizer.OperatorType.{logicalsample}
use eva.Optimizer.Operators.{
  Alias, structured_data, inner_join, query_derived_get_opr, filter_opr, project_opr, limit_opr,
  logical_operator, Tree, tree, no_trees,
}
use eva.Optimizer.RewriteRules.Shared.{node1, node2, passes}
use eva.Optimizer.StatementToPlan.Conditions.{satisfies, passes-visit_select}
use eva.Optimizer.StatementToPlan.Coverage.{has_rule, is_implemented, implementation_rules_of}
use eva.Optimizer.StatementToPlan.Defs.{table_get, join_of, visit_select, visit}
use eva.Optimizer.StatementToPlan.Implemented.{is_direct_statement, visit-implemented}
use eva.Optimizer.StatementToPlan.Independent.{plan_of_select, has_tables, visit_select-kept}
use eva.Parser.Statements.{
  TableRef, table_ref, table_info, nested_select, join_node, SelectStatement, select_statement,
  from_table, no_link, select_query,
}
use eva.Prelude.{String, ◌≡◌, refl, Bool, true, false, none, some, [], ◌∷◌}
use eva.Prelude.Int.{pos}
use eva.Prelude.Result.{ok}

abbrev alias_of : String → Alias
alias_of name = record { alias_name = name; col_names = [] }

abbrev table_of : String → TableRef
table_of name =
    table_ref (table_info (record { table_name = name; table_type = structured_data }))
      (alias_of name) none none

abbrev over_three : Expr
over_three = compare compare_greater (column "t" "t.id") (number 3)

abbrev same_id : Expr
same_id = compare compare_equal (column "t" "t.id") (column "u" "u.id")

abbrev inner : SelectStatement
inner = select_statement (from_table (table_of "u")) none no_link false none none none none

abbrev joined_tables : TableRef
joined_tables =
    table_ref
      (join_node (table_of "t") (table_ref (nested_select inner) (alias_of "v") none none)
        (some same_id) inner_join)
      (alias_of "") none none

abbrev query : SelectStatement
query =
    select_statement (from_table joined_tables) (some over_three) no_link false none none
      (some (integer (pos 2))) (some (column "t" "t.id" ∷ []))

abbrev get_of : String → Tree
get_of name =
    tree
      (logical_operator
        (table_get (record { table_name = name; table_type = structured_data }) (alias_of name)))
      no_trees

abbrev query_plan : Tree
query_plan = node1 (project_opr (column "t" "t.id" ∷ [])) (
    node1 (limit_opr (integer (pos 2))) (
      node1 (filter_opr over_three) (
        node2 (join_of inner_join (some same_id)) (get_of "t")
          (node1 (query_derived_get_opr "v" none []) (get_of "u")))))

visit_select-kept_example : visit_select query (some (get_of "w")) ≡ ok (some query_plan)
unfolding plan_of_select
visit_select-kept_example = visit_select-kept query (some (get_of "w")) (unfold has_tables in refl)

abbrev is_greater : Expr → Bool
is_greater e = eq_type (etype e) compare_greater

query_visited : visit_select query none ≡ ok (some query_plan)
unfolding visit_select
query_visited = refl

passes-visit_select_example : passes is_greater query_plan ≡ satisfies is_greater query
passes-visit_select_example =
    passes-visit_select is_greater query none query_plan (unfold has_tables in refl) query_visited

query_visited_too : visit (select_query query) none ≡ ok (some query_plan)
unfolding visit
query_visited_too = refl

visit-implemented_example : is_implemented (implementation_rules_of false) query_plan ≡ true
visit-implemented_example =
    visit-implemented false (select_query query) none query_plan
      (unfold is_direct_statement in refl) query_visited_too

no_rule_for_samples : has_rule (implementation_rules_of false) logicalsample 1 ≡ false
unfolding has_rule implementation_rules_of
no_rule_for_samples = refl
