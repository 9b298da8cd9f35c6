-- ===== src/Optimizer/Rules/Manager/Init.antt =====
-- `RulesManager.__init__`: the rules of each stage, in the order in which they are listed.
use eva.Optimizer.Rules.Manager.{ManagedRule, RulesManager}
use eva.Optimizer.Rules.RuleType.{
  RuleType, xform_lateral_join_to_linear_flow, xform_extract_object_to_linear_flow,
  embed_filter_into_get, embed_sample_into_get, pushdown_filter_through_join,
  pushdown_filter_through_apply_and_merge,
  combine_similarity_orderby_and_limit_to_vector_index_scan, reorder_predicates,
  logical_inner_join_commutativity, cache_function_expresison_in_apply,
  cache_function_expresison_in_filter, cache_function_expresison_in_project,
  logical_exchange_to_physical, logical_union_to_physical, logical_groupby_to_physical,
  logical_orderby_to_physical, logical_limit_to_physical, logical_insert_to_physical,
  logical_delete_to_physical, logical_load_to_physical, logical_create_to_physical,
  logical_create_from_select_to_physical, logical_rename_to_physical,
  logical_drop_object_to_physical, logical_create_function_to_physical,
  logical_create_function_from_select_to_physical, logical_get_to_seqscan,
  logical_derived_get_to_physical, logical_lateral_join_to_physical,
  logical_join_to_physical_hash_join, logical_join_to_physical_nested_loop_join,
  logical_function_scan_to_physical, logical_filter_to_physical, logical_project_to_physical,
  logical_show_to_physical, logical_explain_to_physical, logical_create_index_to_vector_index,
  logical_apply_and_merge_to_physical, logical_vector_index_scan_to_physical,
}
use eva.Prelude.{String, Bool, List, [], ◌∷◌, ◌++◌, if◌then◌else◌}

abbrev pub rule_of : String → RuleType → ManagedRule
rule_of name rule_type = record { name = name; rule_type = rule_type }

abbrev pub all_logical_rules : List ManagedRule
all_logical_rules =
    rule_of "LogicalInnerJoinCommutativity" logical_inner_join_commutativity
    ∷ rule_of "CacheFunctionExpressionInApply" cache_function_expresison_in_apply
    ∷ rule_of "CacheFunctionExpressionInFilter" cache_function_expresison_in_filter
    ∷ rule_of "CacheFunctionExpressionInProject" cache_function_expresison_in_project
    ∷ []

abbrev pub all_stage_one_rules : List ManagedRule
all_stage_one_rules =
    rule_of "XformLateralJoinToLinearFlow" xform_lateral_join_to_linear_flow
    ∷ rule_of "XformExtractObjectToLinearFlow" xform_extract_object_to_linear_flow
    ∷ []

abbrev pub all_stage_two_rules : List ManagedRule
all_stage_two_rules =
    rule_of "EmbedFilterIntoGet" embed_filter_into_get
    ∷ rule_of "EmbedSampleIntoGet" embed_sample_into_get
    ∷ rule_of "PushDownFilterThroughJoin" pushdown_filter_through_join
    ∷ rule_of "PushDownFilterThroughApplyAndMerge" pushdown_filter_through_apply_and_merge
    ∷ rule_of "CombineSimilarityOrderByAndLimitToVectorIndexScan"
        combine_similarity_orderby_and_limit_to_vector_index_scan
    ∷ rule_of "ReorderPredicates" reorder_predicates
    ∷ []

abbrev pub common_implementation_rules : List ManagedRule
common_implementation_rules =
    rule_of "LogicalCreateToPhysical" logical_create_to_physical
    ∷ rule_of "LogicalCreateFromSelectToPhysical" logical_create_from_select_to_physical
    ∷ rule_of "LogicalRenameToPhysical" logical_rename_to_physical
    ∷ rule_of "LogicalCreateFunctionToPhysical" logical_create_function_to_physical
    ∷ rule_of "LogicalCreateFunctionFromSelectToPhysical"
        logical_create_function_from_select_to_physical
    ∷ rule_of "LogicalDropObjectToPhysical" logical_drop_object_to_physical
    ∷ rule_of "LogicalInsertToPhysical" logical_insert_to_physical
    ∷ rule_of "LogicalDeleteToPhysical" logical_delete_to_physical
    ∷ rule_of "LogicalLoadToPhysical" logical_load_to_physical
    ∷ rule_of "LogicalGetToSeqScan" logical_get_to_seqscan
    ∷ rule_of "LogicalDerivedGetToPhysical" logical_derived_get_to_physical
    ∷ rule_of "LogicalUnionToPhysical" logical_union_to_physical
    ∷ rule_of "LogicalGroupByToPhysical" logical_groupby_to_physical
    ∷ rule_of "LogicalOrderByToPhysical" logical_orderby_to_physical
    ∷ rule_of "LogicalLimitToPhysical" logical_limit_to_physical
    ∷ rule_of "LogicalJoinToPhysicalNestedLoopJoin" logical_join_to_physical_nested_loop_join
    ∷ rule_of "LogicalLateralJoinToPhysical" logical_lateral_join_to_physical
    ∷ rule_of "LogicalJoinToPhysicalHashJoin" logical_join_to_physical_hash_join
    ∷ rule_of "LogicalFunctionScanToPhysical" logical_function_scan_to_physical
    ∷ rule_of "LogicalFilterToPhysical" logical_filter_to_physical
    ∷ rule_of "LogicalShowToPhysical" logical_show_to_physical
    ∷ rule_of "LogicalExplainToPhysical" logical_explain_to_physical
    ∷ rule_of "LogicalCreateIndexToVectorIndex" logical_create_index_to_vector_index
    ∷ rule_of "LogicalVectorIndexScanToPhysical" logical_vector_index_scan_to_physical
    ∷ []

abbrev pub ray_rules : List ManagedRule
ray_rules =
    rule_of "LogicalExchangeToPhysical" logical_exchange_to_physical
    ∷ rule_of "LogicalApplyAndMergeToRayPhysical" logical_apply_and_merge_to_physical
    ∷ rule_of "LogicalProjectToRayPhysical" logical_project_to_physical
    ∷ []

abbrev pub rules_without_ray : List ManagedRule
rules_without_ray =
    rule_of "LogicalApplyAndMergeToPhysical" logical_apply_and_merge_to_physical
    ∷ rule_of "LogicalProjectToPhysical" logical_project_to_physical
    ∷ []

-- whether Ray is installed and enabled
unfoldable pub new_rules_manager : (ray : Bool) → RulesManager
new_rules_manager ray = record {
  stage_one_rewrite_rules = all_stage_one_rules;
  stage_two_rewrite_rules = all_stage_two_rules;
  logical_rules = all_logical_rules;
  implementation_rules =
      common_implementation_rules ++ (if ray then ray_rules else rules_without_ray);
}
