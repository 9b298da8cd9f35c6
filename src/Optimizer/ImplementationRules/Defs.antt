-- ===== src/Optimizer/ImplementationRules/Defs.antt =====
-- `apply` of the implementation rules that read nothing but the operator and its children. The hash join
-- and the nested loop join stand with the rewrite rules; Apply puts all of them together.
use eva.Expression.Types.{Value, Expr}
use eva.Optimizer.OperatorType.{
  logicalinsert, logicaldelete, logicalcreate, logicalrename, logical_drop_object,
  logicalcreatefunction, logicalloaddata, logical_show, logicalcreateindex,
}
use eva.Optimizer.Operators.{
  lateral_join, inner_join, SortType, Get, Join, Apply, IndexScan, LogicalOperator, get_opr,
  query_derived_get_opr, filter_opr, project_opr, group_by_opr, order_by_opr, limit_opr, union_opr,
  join_opr, function_scan_opr, apply_and_merge_opr, vector_index_scan_opr, explain_opr,
  statement_opr, PhysicalPlan, apply_and_merge_plan, seq_scan_plan, storage_plan, predicate_plan,
  project_plan, union_plan, group_by_plan, order_by_plan, limit_plan, function_scan_plan,
  vector_index_scan_plan, explain_plan, lateral_join_plan, other_plan, physical_plan, Tree, tree,
  Trees, no_trees, more_trees,
}
use eva.Optimizer.Rules.RuleType.{
  RuleType, logical_union_to_physical, logical_groupby_to_physical, logical_orderby_to_physical,
  logical_limit_to_physical, logical_insert_to_physical, logical_delete_to_physical,
  logical_load_to_physical, logical_create_to_physical, logical_create_from_select_to_physical,
  logical_rename_to_physical, logical_drop_object_to_physical, logical_create_function_to_physical,
  logical_create_function_from_select_to_physical, logical_get_to_seqscan,
  logical_derived_get_to_physical, logical_lateral_join_to_physical,
  logical_function_scan_to_physical, logical_filter_to_physical, logical_project_to_physical,
  logical_show_to_physical, logical_explain_to_physical, logical_create_index_to_vector_index,
  logical_apply_and_merge_to_physical, logical_vector_index_scan_to_physical,
}
use eva.Prelude.{ℕ, String, Bool, true, false, Option, none, some, List}

-- a plan node without children
abbrev pub plan_leaf : PhysicalPlan → Tree
plan_leaf plan = tree (physical_plan plan) no_trees

-- `for child in before.children: after.append_child(child)`
abbrev pub plan_over : PhysicalPlan → Trees → Tree
plan_over plan ts = tree (physical_plan plan) ts

abbrev pub create_to_physical : ℕ → Tree
create_to_physical contents = plan_leaf (other_plan "CreatePlan" contents)

abbrev pub create_from_select_to_physical : ℕ → Trees → Tree
create_from_select_to_physical contents ts =
    plan_over (other_plan "CreateFromSelectPlan" contents) ts

abbrev pub rename_to_physical : ℕ → Tree
rename_to_physical contents = plan_leaf (other_plan "RenamePlan" contents)

abbrev pub create_function_to_physical : ℕ → Tree
create_function_to_physical contents = plan_leaf (other_plan "CreateFunctionPlan" contents)

abbrev pub create_function_from_select_to_physical : ℕ → Trees → Tree
create_function_from_select_to_physical contents ts =
    plan_over (other_plan "CreateFunctionPlan" contents) ts

abbrev pub create_index_to_vector_index : ℕ → Tree
create_index_to_vector_index contents = plan_leaf (other_plan "CreateIndexPlan" contents)

abbrev pub drop_object_to_physical : ℕ → Tree
drop_object_to_physical contents = plan_leaf (other_plan "DropObjectPlan" contents)

abbrev pub insert_to_physical : ℕ → Tree
insert_to_physical contents = plan_leaf (other_plan "InsertPlan" contents)

abbrev pub delete_to_physical : ℕ → Tree
delete_to_physical contents = plan_leaf (other_plan "DeletePlan" contents)

abbrev pub load_to_physical : ℕ → Tree
load_to_physical contents = plan_leaf (other_plan "LoadDataPlan" contents)

abbrev pub show_to_physical : ℕ → Tree
show_to_physical contents = plan_leaf (other_plan "ShowInfoPlan" contents)

-- The storage plan takes the table's condition, and the scan above it has none.
abbrev pub get_to_seq_scan : Get → Tree
get_to_seq_scan before = plan_over (seq_scan_plan none before.target_list before.alias) (
    more_trees
      (plan_leaf (
        storage_plan before.table_obj before.video before.predicate before.sampling_rate
          before.sampling_type))
      no_trees)

abbrev pub derived_get_to_physical : String → Option Expr → List Expr → Tree → Tree
derived_get_to_physical alias predicate target_list child =
    plan_over (seq_scan_plan predicate (some target_list) alias) (more_trees child no_trees)

abbrev pub union_to_physical : Bool → Trees → Tree
union_to_physical all ts = plan_over (union_plan all) ts

abbrev pub group_by_to_physical : Value → Trees → Tree
group_by_to_physical groupby_clause ts = plan_over (group_by_plan groupby_clause) ts

abbrev pub order_by_to_physical : List (Expr × SortType) → Trees → Tree
order_by_to_physical orderby_list ts = plan_over (order_by_plan orderby_list) ts

abbrev pub limit_to_physical : Value → Trees → Tree
limit_to_physical limit_count ts = plan_over (limit_plan limit_count) ts

-- The alias of the scan is not handed on.
abbrev pub function_scan_to_physical : Apply → Tree
function_scan_to_physical before = plan_leaf (function_scan_plan before.func_expr before.do_unnest)

-- `check`, then `apply`; `lhs()` and `rhs()` are the two children
abbrev pub lateral_join_check : Join → Bool
lateral_join_check before = elim before.join_type [ lateral_join ↦ true | inner_join ↦ false ]

abbrev pub lateral_join_to_physical : Join → Tree → Tree → Tree
lateral_join_to_physical before lhs rhs =
    plan_over (lateral_join_plan before.join_predicate before.join_project)
      (more_trees lhs (more_trees rhs no_trees))

abbrev pub filter_to_physical : Expr → Trees → Tree
filter_to_physical predicate ts = plan_over (predicate_plan predicate) ts

abbrev pub project_to_physical : List Expr → Trees → Tree
project_to_physical target_list ts = plan_over (project_plan target_list) ts

abbrev pub explain_to_physical : Trees → Tree
explain_to_physical ts = plan_over explain_plan ts

abbrev pub apply_and_merge_to_physical : Apply → Trees → Tree
apply_and_merge_to_physical before ts = plan_over (apply_and_merge_plan before) ts

abbrev pub vector_index_scan_to_physical : IndexScan → Trees → Tree
vector_index_scan_to_physical before ts = plan_over (vector_index_scan_plan before) ts

-- `apply` of the rules of this file, by the type of the rule and the operator that its pattern has matched
unfoldable pub implement_alone : RuleType → LogicalOperator → Trees → Option Tree
implement_alone logical_create_to_physical (statement_opr logicalcreate n) ts =
    some (create_to_physical n)
implement_alone logical_create_from_select_to_physical (statement_opr logicalcreate n) ts =
    some (create_from_select_to_physical n ts)
implement_alone logical_rename_to_physical (statement_opr logicalrename n) ts =
    some (rename_to_physical n)
implement_alone logical_create_function_to_physical (statement_opr logicalcreatefunction n) ts =
    some (create_function_to_physical n)
implement_alone logical_create_function_from_select_to_physical
      (statement_opr logicalcreatefunction n) ts =
    some (create_function_from_select_to_physical n ts)
implement_alone logical_create_index_to_vector_index (statement_opr logicalcreateindex n) ts =
    some (create_index_to_vector_index n)
implement_alone logical_drop_object_to_physical (statement_opr logical_drop_object n) ts =
    some (drop_object_to_physical n)
implement_alone logical_insert_to_physical (statement_opr logicalinsert n) ts =
    some (insert_to_physical n)
implement_alone logical_delete_to_physical (statement_opr logicaldelete n) ts =
    some (delete_to_physical n)
implement_alone logical_load_to_physical (statement_opr logicalloaddata n) ts =
    some (load_to_physical n)
implement_alone logical_show_to_physical (statement_opr logical_show n) ts =
    some (show_to_physical n)
implement_alone logical_get_to_seqscan (get_opr before) ts = some (get_to_seq_scan before)
implement_alone logical_derived_get_to_physical (query_derived_get_opr alias predicate targets)
      (more_trees child ts) =
    some (derived_get_to_physical alias predicate targets child)
implement_alone logical_union_to_physical (union_opr all) ts = some (union_to_physical all ts)
implement_alone logical_groupby_to_physical (group_by_opr groupby_clause) ts =
    some (group_by_to_physical groupby_clause ts)
implement_alone logical_orderby_to_physical (order_by_opr orderby_list) ts =
    some (order_by_to_physical orderby_list ts)
implement_alone logical_limit_to_physical (limit_opr limit_count) ts =
    some (limit_to_physical limit_count ts)
implement_alone logical_function_scan_to_physical (function_scan_opr before) ts =
    some (function_scan_to_physical before)
implement_alone logical_lateral_join_to_physical (join_opr before)
      (more_trees lhs (more_trees rhs ts)) =
    some (lateral_join_to_physical before lhs rhs)
implement_alone logical_filter_to_physical (filter_opr predicate) ts =
    some (filter_to_physical predicate ts)
implement_alone logical_project_to_physical (project_opr target_list) ts =
    some (project_to_physical target_list ts)
implement_alone logical_explain_to_physical explain_opr ts = some (explain_to_physical ts)
implement_alone logical_apply_and_merge_to_physical (apply_and_merge_opr before) ts =
    some (apply_and_merge_to_physical before ts)
implement_alone logical_vector_index_scan_to_physical (vector_index_scan_opr before) ts =
    some (vector_index_scan_to_physical before ts)
implement_alone rule opr ts = none
