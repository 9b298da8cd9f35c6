-- ===== src/Optimizer/ImplementationRules/Alone.antt =====
-- The rules that read nothing but the operator and its children keep its conditions.
use eva.Expression.Conjunction.Meaning.{holds_opt}
use eva.Expression.Types.{Expr}
use eva.Optimizer.ImplementationRules.Defs.{implement_alone}
use eva.Optimizer.OperatorType.{
  logicalinsert, logicaldelete, logicalcreate, logicalrename, logical_drop_object,
  logicalcreatefunction, logicalloaddata, logical_show, logicalcreateindex,
}
use eva.Optimizer.Operators.{
  LogicalOperator, get_opr, query_derived_get_opr, filter_opr, project_opr, group_by_opr,
  order_by_opr, limit_opr, union_opr, join_opr, function_scan_opr, apply_and_merge_opr,
  vector_index_scan_opr, explain_opr, statement_opr, logical_type, logical_operator, Tree, tree,
  Trees, no_trees, more_trees,
}
use eva.Optimizer.RewriteRules.Shared.{passes}
use eva.Optimizer.Rules.RuleType.{
  RuleType, logical_union_to_physical, logical_groupby_to_physical, logical_orderby_to_physical,
  logical_limit_to_physical, logical_insert_to_physical, logical_delete_to_physical,
  logical_load_to_physical, logical_create_to_physical, logical_create_from_select_to_physical,
  logical_rename_to_physical, logical_drop_object_to_physical, logical_create_function_to_physical,
  logical_create_function_from_select_to_physical, logical_get_to_seqscan,
  logical_derived_get_to_physical, logical_lateral_join_to_physical,
  logical_function_scan_to_physical, logical_filter_to_physical, logical_project_to_physical,
  logical_show_to_physical, logical_explain_to_physical, logical_create_index_to_vector_index,
  logical_apply_and_merge_to_physical, logical_vector_index_scan_to_physical,
}
use eva.Optimizer.StatementToPlan.Coverage.{all_dummies, fits, count_trees}
use eva.Prelude.{◌≡◌, refl, Bool, true, ◌&&◌, some, and_true}

some-injective {ℓ} : {A : Type ℓ} {x y : A} → some x ≡ some y → x ≡ y
some-injective same = cc

pub passes-implement_alone :
    (atom : Expr → Bool) (rule : RuleType) (opr : LogicalOperator) (ts : Trees) (after : Tree)
    → fits rule (logical_type opr) (count_trees ts) ≡ true
    → implement_alone rule opr ts ≡ some after
    → passes atom after ≡ passes atom (tree (logical_operator opr) ts)
unfolding implement_alone fits passes all_dummies count_trees
passes-implement_alone atom logical_create_to_physical (statement_opr logicalcreate n) no_trees
      after h e =
    rw (← some-injective e) refl
passes-implement_alone atom logical_create_to_physical (statement_opr logicalcreate n)
      (more_trees t ts) after h e =
    absurd (cc)
passes-implement_alone atom logical_rename_to_physical (statement_opr logicalrename n) no_trees
      after h e =
    rw (← some-injective e) refl
passes-implement_alone atom logical_rename_to_physical (statement_opr logicalrename n)
      (more_trees t ts) after h e =
    absurd (cc)
passes-implement_alone atom logical_create_function_to_physical
      (statement_opr logicalcreatefunction n) no_trees after h e =
    rw (← some-injective e) refl
passes-implement_alone atom logical_create_function_to_physical
      (statement_opr logicalcreatefunction n) (more_trees t ts) after h e =
    absurd (cc)
passes-implement_alone atom logical_create_index_to_vector_index
      (statement_opr logicalcreateindex n) no_trees after h e =
    rw (← some-injective e) refl
passes-implement_alone atom logical_create_index_to_vector_index
      (statement_opr logicalcreateindex n) (more_trees t ts) after h e =
    absurd (cc)
passes-implement_alone atom logical_drop_object_to_physical (statement_opr logical_drop_object n)
      no_trees after h e =
    rw (← some-injective e) refl
passes-implement_alone atom logical_drop_object_to_physical (statement_opr logical_drop_object n)
      (more_trees t ts) after h e =
    absurd (cc)
passes-implement_alone atom logical_insert_to_physical (statement_opr logicalinsert n) no_trees
      after h e =
    rw (← some-injective e) refl
passes-implement_alone atom logical_insert_to_physical (statement_opr logicalinsert n)
      (more_trees t ts) after h e =
    absurd (cc)
passes-implement_alone atom logical_delete_to_physical (statement_opr logicaldelete n) no_trees
      after h e =
    rw (← some-injective e) refl
passes-implement_alone atom logical_delete_to_physical (statement_opr logicaldelete n)
      (more_trees t ts) after h e =
    absurd (cc)
passes-implement_alone atom logical_load_to_physical (statement_opr logicalloaddata n) no_trees
      after h e =
    rw (← some-injective e) refl
passes-implement_alone atom logical_load_to_physical (statement_opr logicalloaddata n)
      (more_trees t ts) after h e =
    absurd (cc)
passes-implement_alone atom logical_show_to_physical (statement_opr logical_show n) no_trees after h
      e =
    rw (← some-injective e) refl
passes-implement_alone atom logical_show_to_physical (statement_opr logical_show n)
      (more_trees t ts) after h e =
    absurd (cc)
passes-implement_alone atom logical_create_from_select_to_physical (statement_opr logicalcreate n)
      ts after h e =
    rw (← some-injective e) refl
passes-implement_alone atom logical_create_function_from_select_to_physical
      (statement_opr logicalcreatefunction n) ts after h e =
    rw (← some-injective e) refl
passes-implement_alone atom logical_union_to_physical (union_opr all) ts after h e =
    rw (← some-injective e) refl
passes-implement_alone atom logical_groupby_to_physical (group_by_opr groupby_clause) ts after h e =
    rw (← some-injective e) refl
passes-implement_alone atom logical_orderby_to_physical (order_by_opr orderby_list) ts after h e =
    rw (← some-injective e) refl
passes-implement_alone atom logical_limit_to_physical (limit_opr limit_count) ts after h e =
    rw (← some-injective e) refl
passes-implement_alone atom logical_filter_to_physical (filter_opr predicate) ts after h e =
    rw (← some-injective e) refl
passes-implement_alone atom logical_project_to_physical (project_opr target_list) ts after h e =
    rw (← some-injective e) refl
passes-implement_alone atom logical_explain_to_physical explain_opr ts after h e =
    rw (← some-injective e) refl
passes-implement_alone atom logical_apply_and_merge_to_physical (apply_and_merge_opr before) ts
      after h e =
    rw (← some-injective e) refl
passes-implement_alone atom logical_vector_index_scan_to_physical (vector_index_scan_opr before) ts
      after h e =
    rw (← some-injective e) refl
passes-implement_alone atom logical_get_to_seqscan (get_opr before) no_trees after h e =
    rw (← some-injective e) (and_true (holds_opt atom before.predicate && true))
passes-implement_alone atom logical_get_to_seqscan (get_opr before) (more_trees t ts) after h e =
    absurd (cc)
passes-implement_alone atom logical_function_scan_to_physical (function_scan_opr before) no_trees
      after h e =
    rw (← some-injective e) refl
passes-implement_alone atom logical_function_scan_to_physical (function_scan_opr before)
      (more_trees t ts) after h e =
    absurd (cc)
passes-implement_alone atom logical_derived_get_to_physical (query_derived_get_opr alias p targets)
      (more_trees child no_trees) after h e =
    rw (← some-injective e) refl
passes-implement_alone atom logical_derived_get_to_physical (query_derived_get_opr alias p targets)
      (more_trees child (more_trees t ts)) after h e =
    absurd (cc)
passes-implement_alone atom logical_lateral_join_to_physical (join_opr before)
      (more_trees lhs (more_trees rhs no_trees)) after h e =
    rw (← some-injective e) refl
passes-implement_alone atom logical_lateral_join_to_physical (join_opr before)
      (more_trees lhs (more_trees rhs (more_trees t ts))) after h e =
    absurd (cc)
passes-implement_alone atom rule opr ts after h e = absurd (cc)
