-- ===== src/Optimizer/Rules/Patterns.antt =====
-- optimizer/rules/rules.py: the pattern that the constructor of each rule makes.
use eva.Optimizer.Memo.Binder.{Pattern, pattern_of, no_patterns, more_patterns}
use eva.Optimizer.OperatorType.{
  OperatorType, opr_dummy, logicalexchange, logicalget, logicalfilter, logicalproject,
  logicalinsert, logicaldelete, logicalcreate, logicalrename, logical_drop_object,
  logicalcreatefunction, logicalloaddata, logicalqueryderivedget, logicalunion, logicalgroupby,
  logicalorderby, logicallimit, logicalsample, logicaljoin, logicalfunctionscan, logical_show,
  logicalexplain, logicalcreateindex, logical_apply_and_merge, logical_extract_object,
  logical_vector_index_scan,
}
use eva.Optimizer.Rules.RuleType.{
  RuleType, xform_lateral_join_to_linear_flow, xform_extract_object_to_linear_flow,
  embed_filter_into_get, embed_sample_into_get, pushdown_filter_through_join,
  pushdown_filter_through_apply_and_merge,
  combine_similarity_orderby_and_limit_to_vector_index_scan, reorder_predicates,
  logical_inner_join_commutativity, cache_function_expresison_in_apply,
  cache_function_expresison_in_filter, cache_function_expresison_in_project,
  logical_exchange_to_physical, logical_union_to_physical, logical_groupby_to_physical,
  logical_orderby_to_physical, logical_limit_to_physical, logical_insert_to_physical,
  logical_delete_to_physical, logical_load_to_physical, logical_create_to_physical,
  logical_create_from_select_to_physical, logical_rename_to_physical,
  logical_drop_object_to_physical, logical_create_function_to_physical,
  logical_create_function_from_select_to_physical, logical_get_to_seqscan,
  logical_derived_get_to_physical, logical_lateral_join_to_physical,
  logical_join_to_physical_hash_join, logical_join_to_physical_nested_loop_join,
  logical_function_scan_to_physical, logical_filter_to_physical, logical_project_to_physical,
  logical_show_to_physical, logical_explain_to_physical, logical_create_index_to_vector_index,
  logical_apply_and_merge_to_physical, logical_vector_index_scan_to_physical,
}
use eva.Prelude.{Option, none, some}

-- a pattern without children
abbrev pub leaf_of : OperatorType → Pattern
leaf_of t = pattern_of t no_patterns

-- `Pattern(OperatorType.DUMMY)`, which matches any plan
abbrev pub any_plan : Pattern
any_plan = leaf_of opr_dummy

abbrev pub pattern1 : OperatorType → Pattern → Pattern
pattern1 t p = pattern_of t (more_patterns p no_patterns)

abbrev pub pattern2 : OperatorType → Pattern → Pattern → Pattern
pattern2 t p q = pattern_of t (more_patterns p (more_patterns q no_patterns))

-- `EmbedFilterIntoGet`
abbrev embed_filter_into_get_pattern : Pattern
embed_filter_into_get_pattern = pattern1 logicalfilter (leaf_of logicalget)

-- `EmbedSampleIntoGet`
abbrev embed_sample_into_get_pattern : Pattern
embed_sample_into_get_pattern = pattern1 logicalsample (leaf_of logicalget)

-- `CacheFunctionExpressionInProject`
abbrev cache_function_expresison_in_project_pattern : Pattern
cache_function_expresison_in_project_pattern = pattern1 logicalproject any_plan

-- `CacheFunctionExpressionInFilter`
abbrev cache_function_expresison_in_filter_pattern : Pattern
cache_function_expresison_in_filter_pattern = pattern1 logicalfilter any_plan

-- `CacheFunctionExpressionInApply`
abbrev cache_function_expresison_in_apply_pattern : Pattern
cache_function_expresison_in_apply_pattern = pattern1 logical_apply_and_merge any_plan

-- `PushDownFilterThroughJoin`
abbrev pushdown_filter_through_join_pattern : Pattern
pushdown_filter_through_join_pattern =
    pattern1 logicalfilter (pattern2 logicaljoin any_plan any_plan)

-- `XformLateralJoinToLinearFlow`
abbrev xform_lateral_join_to_linear_flow_pattern : Pattern
xform_lateral_join_to_linear_flow_pattern =
    pattern2 logicaljoin any_plan (leaf_of logicalfunctionscan)

-- `PushDownFilterThroughApplyAndMerge`
abbrev pushdown_filter_through_apply_and_merge_pattern : Pattern
pushdown_filter_through_apply_and_merge_pattern =
    pattern1 logicalfilter (pattern1 logical_apply_and_merge any_plan)

-- `XformExtractObjectToLinearFlow`
abbrev xform_extract_object_to_linear_flow_pattern : Pattern
xform_extract_object_to_linear_flow_pattern =
    pattern2 logicaljoin any_plan (leaf_of logical_extract_object)

-- `CombineSimilarityOrderByAndLimitToVectorIndexScan`
abbrev combine_similarity_orderby_and_limit_to_vector_index_scan_pattern : Pattern
combine_similarity_orderby_and_limit_to_vector_index_scan_pattern =
    pattern1 logicallimit (pattern1 logicalorderby any_plan)

-- `LogicalInnerJoinCommutativity`
abbrev logical_inner_join_commutativity_pattern : Pattern
logical_inner_join_commutativity_pattern = pattern2 logicaljoin any_plan any_plan

-- `ReorderPredicates`
abbrev reorder_predicates_pattern : Pattern
reorder_predicates_pattern = pattern1 logicalfilter any_plan

-- `LogicalCreateToPhysical`
abbrev logical_create_to_physical_pattern : Pattern
logical_create_to_physical_pattern = leaf_of logicalcreate

-- `LogicalCreateFromSelectToPhysical`
abbrev logical_create_from_select_to_physical_pattern : Pattern
logical_create_from_select_to_physical_pattern = pattern1 logicalcreate any_plan

-- `LogicalRenameToPhysical`
abbrev logical_rename_to_physical_pattern : Pattern
logical_rename_to_physical_pattern = leaf_of logicalrename

-- `LogicalCreateFunctionToPhysical`
abbrev logical_create_function_to_physical_pattern : Pattern
logical_create_function_to_physical_pattern = leaf_of logicalcreatefunction

-- `LogicalCreateFunctionFromSelectToPhysical`
abbrev logical_create_function_from_select_to_physical_pattern : Pattern
logical_create_function_from_select_to_physical_pattern = pattern1 logicalcreatefunction any_plan

-- `LogicalCreateIndexToVectorIndex`
abbrev logical_create_index_to_vector_index_pattern : Pattern
logical_create_index_to_vector_index_pattern = leaf_of logicalcreateindex

-- `LogicalDropObjectToPhysical`
abbrev logical_drop_object_to_physical_pattern : Pattern
logical_drop_object_to_physical_pattern = leaf_of logical_drop_object

-- `LogicalInsertToPhysical`
abbrev logical_insert_to_physical_pattern : Pattern
logical_insert_to_physical_pattern = leaf_of logicalinsert

-- `LogicalDeleteToPhysical`
abbrev logical_delete_to_physical_pattern : Pattern
logical_delete_to_physical_pattern = leaf_of logicaldelete

-- `LogicalLoadToPhysical`
abbrev logical_load_to_physical_pattern : Pattern
logical_load_to_physical_pattern = leaf_of logicalloaddata

-- `LogicalGetToSeqScan`
abbrev logical_get_to_seqscan_pattern : Pattern
logical_get_to_seqscan_pattern = leaf_of logicalget

-- `LogicalDerivedGetToPhysical`
abbrev logical_derived_get_to_physical_pattern : Pattern
logical_derived_get_to_physical_pattern = pattern1 logicalqueryderivedget any_plan

-- `LogicalUnionToPhysical`
abbrev logical_union_to_physical_pattern : Pattern
logical_union_to_physical_pattern = pattern2 logicalunion any_plan any_plan

-- `LogicalGroupByToPhysical`
abbrev logical_groupby_to_physical_pattern : Pattern
logical_groupby_to_physical_pattern = pattern1 logicalgroupby any_plan

-- `LogicalOrderByToPhysical`
abbrev logical_orderby_to_physical_pattern : Pattern
logical_orderby_to_physical_pattern = pattern1 logicalorderby any_plan

-- `LogicalLimitToPhysical`
abbrev logical_limit_to_physical_pattern : Pattern
logical_limit_to_physical_pattern = pattern1 logicallimit any_plan

-- `LogicalFunctionScanToPhysical`
abbrev logical_function_scan_to_physical_pattern : Pattern
logical_function_scan_to_physical_pattern = leaf_of logicalfunctionscan

-- `LogicalLateralJoinToPhysical`
abbrev logical_lateral_join_to_physical_pattern : Pattern
logical_lateral_join_to_physical_pattern = pattern2 logicaljoin any_plan any_plan

-- `LogicalJoinToPhysicalHashJoin`
abbrev logical_join_to_physical_hash_join_pattern : Pattern
logical_join_to_physical_hash_join_pattern = pattern2 logicaljoin any_plan any_plan

-- `LogicalJoinToPhysicalNestedLoopJoin`
abbrev logical_join_to_physical_nested_loop_join_pattern : Pattern
logical_join_to_physical_nested_loop_join_pattern = pattern2 logicaljoin any_plan any_plan

-- `LogicalFilterToPhysical`
abbrev logical_filter_to_physical_pattern : Pattern
logical_filter_to_physical_pattern = pattern1 logicalfilter any_plan

-- `LogicalProjectToPhysical`
abbrev logical_project_to_physical_pattern : Pattern
logical_project_to_physical_pattern = pattern1 logicalproject any_plan

-- `LogicalShowToPhysical`
abbrev logical_show_to_physical_pattern : Pattern
logical_show_to_physical_pattern = leaf_of logical_show

-- `LogicalExplainToPhysical`
abbrev logical_explain_to_physical_pattern : Pattern
logical_explain_to_physical_pattern = pattern1 logicalexplain any_plan

-- `LogicalApplyAndMergeToPhysical`
abbrev logical_apply_and_merge_to_physical_pattern : Pattern
logical_apply_and_merge_to_physical_pattern = pattern1 logical_apply_and_merge any_plan

-- `LogicalVectorIndexScanToPhysical`
abbrev logical_vector_index_scan_to_physical_pattern : Pattern
logical_vector_index_scan_to_physical_pattern = pattern1 logical_vector_index_scan any_plan

-- `LogicalExchangeToPhysical`
abbrev logical_exchange_to_physical_pattern : Pattern
logical_exchange_to_physical_pattern = pattern1 logicalexchange any_plan

-- The pattern of the rule of a type; the two rules for Ray have the types and the patterns of those
-- that they stand in for. A delimiter is the type of no rule.
unfoldable pub rule_pattern : RuleType → Option Pattern
rule_pattern embed_filter_into_get = some embed_filter_into_get_pattern
rule_pattern embed_sample_into_get = some embed_sample_into_get_pattern
rule_pattern cache_function_expresison_in_project =
    some cache_function_expresison_in_project_pattern
rule_pattern cache_function_expresison_in_filter = some cache_function_expresison_in_filter_pattern
rule_pattern cache_function_expresison_in_apply = some cache_function_expresison_in_apply_pattern
rule_pattern pushdown_filter_through_join = some pushdown_filter_through_join_pattern
rule_pattern xform_lateral_join_to_linear_flow = some xform_lateral_join_to_linear_flow_pattern
rule_pattern pushdown_filter_through_apply_and_merge =
    some pushdown_filter_through_apply_and_merge_pattern
rule_pattern xform_extract_object_to_linear_flow = some xform_extract_object_to_linear_flow_pattern
rule_pattern combine_similarity_orderby_and_limit_to_vector_index_scan =
    some combine_similarity_orderby_and_limit_to_vector_index_scan_pattern
rule_pattern logical_inner_join_commutativity = some logical_inner_join_commutativity_pattern
rule_pattern reorder_predicates = some reorder_predicates_pattern
rule_pattern logical_create_to_physical = some logical_create_to_physical_pattern
rule_pattern logical_create_from_select_to_physical =
    some logical_create_from_select_to_physical_pattern
rule_pattern logical_rename_to_physical = some logical_rename_to_physical_pattern
rule_pattern logical_create_function_to_physical = some logical_create_function_to_physical_pattern
rule_pattern logical_create_function_from_select_to_physical =
    some logical_create_function_from_select_to_physical_pattern
rule_pattern logical_create_index_to_vector_index =
    some logical_create_index_to_vector_index_pattern
rule_pattern logical_drop_object_to_physical = some logical_drop_object_to_physical_pattern
rule_pattern logical_insert_to_physical = some logical_insert_to_physical_pattern
rule_pattern logical_delete_to_physical = some logical_delete_to_physical_pattern
rule_pattern logical_load_to_physical = some logical_load_to_physical_pattern
rule_pattern logical_get_to_seqscan = some logical_get_to_seqscan_pattern
rule_pattern logical_derived_get_to_physical = some logical_derived_get_to_physical_pattern
rule_pattern logical_union_to_physical = some logical_union_to_physical_pattern
rule_pattern logical_groupby_to_physical = some logical_groupby_to_physical_pattern
rule_pattern logical_orderby_to_physical = some logical_orderby_to_physical_pattern
rule_pattern logical_limit_to_physical = some logical_limit_to_physical_pattern
rule_pattern logical_function_scan_to_physical = some logical_function_scan_to_physical_pattern
rule_pattern logical_lateral_join_to_physical = some logical_lateral_join_to_physical_pattern
rule_pattern logical_join_to_physical_hash_join = some logical_join_to_physical_hash_join_pattern
rule_pattern logical_join_to_physical_nested_loop_join =
    some logical_join_to_physical_nested_loop_join_pattern
rule_pattern logical_filter_to_physical = some logical_filter_to_physical_pattern
rule_pattern logical_project_to_physical = some logical_project_to_physical_pattern
rule_pattern logical_show_to_physical = some logical_show_to_physical_pattern
rule_pattern logical_explain_to_physical = some logical_explain_to_physical_pattern
rule_pattern logical_apply_and_merge_to_physical = some logical_apply_and_merge_to_physical_pattern
rule_pattern logical_vector_index_scan_to_physical =
    some logical_vector_index_scan_to_physical_pattern
rule_pattern logical_exchange_to_physical = some logical_exchange_to_physical_pattern
rule_pattern t = none
