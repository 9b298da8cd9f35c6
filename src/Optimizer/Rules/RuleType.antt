-- ===== src/Optimizer/Rules/RuleType.antt =====
-- optimizer/rules/rules_base.py: the kinds of rules, and the order in which they are tried.
use eva.Prelude.{ℕ, ◌-◌, ◌^◌, Bool, ◌&&◌, ltb, ◌==◌}

-- the members of the `RuleType` flag
pub data RuleType : Type 0 where
  invalid_rule : RuleType
  xform_lateral_join_to_linear_flow : RuleType
  xform_extract_object_to_linear_flow : RuleType
  top_down_delimiter : RuleType
  embed_filter_into_get : RuleType
  embed_sample_into_get : RuleType
  pushdown_filter_through_join : RuleType
  pushdown_filter_through_apply_and_merge : RuleType
  combine_similarity_orderby_and_limit_to_vector_index_scan : RuleType
  reorder_predicates : RuleType
  rewrite_delimiter : RuleType
  logical_inner_join_commutativity : RuleType
  cache_function_expresison_in_apply : RuleType
  cache_function_expresison_in_filter : RuleType
  cache_function_expresison_in_project : RuleType
  transformation_delimiter : RuleType
  logical_exchange_to_physical : RuleType
  logical_union_to_physical : RuleType
  logical_groupby_to_physical : RuleType
  logical_orderby_to_physical : RuleType
  logical_limit_to_physical : RuleType
  logical_insert_to_physical : RuleType
  logical_delete_to_physical : RuleType
  logical_load_to_physical : RuleType
  logical_create_to_physical : RuleType
  logical_create_from_select_to_physical : RuleType
  logical_rename_to_physical : RuleType
  logical_drop_object_to_physical : RuleType
  logical_create_function_to_physical : RuleType
  logical_create_function_from_select_to_physical : RuleType
  logical_get_to_seqscan : RuleType
  logical_sample_to_uniformsample : RuleType
  logical_derived_get_to_physical : RuleType
  logical_lateral_join_to_physical : RuleType
  logical_join_to_physical_hash_join : RuleType
  logical_join_to_physical_nested_loop_join : RuleType
  logical_function_scan_to_physical : RuleType
  logical_filter_to_physical : RuleType
  logical_project_to_physical : RuleType
  logical_show_to_physical : RuleType
  logical_explain_to_physical : RuleType
  logical_create_index_to_vector_index : RuleType
  logical_apply_and_merge_to_physical : RuleType
  logical_vector_index_scan_to_physical : RuleType
  implementation_delimiter : RuleType
  num_rules : RuleType

-- the place of a member's bit; `INVALID_RULE` is the empty flag
abbrev pub rule_bit : RuleType → ℕ
rule_bit invalid_rule = 0
rule_bit xform_lateral_join_to_linear_flow = 1
rule_bit xform_extract_object_to_linear_flow = 2
rule_bit top_down_delimiter = 3
rule_bit embed_filter_into_get = 4
rule_bit embed_sample_into_get = 5
rule_bit pushdown_filter_through_join = 6
rule_bit pushdown_filter_through_apply_and_merge = 7
rule_bit combine_similarity_orderby_and_limit_to_vector_index_scan = 8
rule_bit reorder_predicates = 9
rule_bit rewrite_delimiter = 10
rule_bit logical_inner_join_commutativity = 11
rule_bit cache_function_expresison_in_apply = 12
rule_bit cache_function_expresison_in_filter = 13
rule_bit cache_function_expresison_in_project = 14
rule_bit transformation_delimiter = 15
rule_bit logical_exchange_to_physical = 16
rule_bit logical_union_to_physical = 17
rule_bit logical_groupby_to_physical = 18
rule_bit logical_orderby_to_physical = 19
rule_bit logical_limit_to_physical = 20
rule_bit logical_insert_to_physical = 21
rule_bit logical_delete_to_physical = 22
rule_bit logical_load_to_physical = 23
rule_bit logical_create_to_physical = 24
rule_bit logical_create_from_select_to_physical = 25
rule_bit logical_rename_to_physical = 26
rule_bit logical_drop_object_to_physical = 27
rule_bit logical_create_function_to_physical = 28
rule_bit logical_create_function_from_select_to_physical = 29
rule_bit logical_get_to_seqscan = 30
rule_bit logical_sample_to_uniformsample = 31
rule_bit logical_derived_get_to_physical = 32
rule_bit logical_lateral_join_to_physical = 33
rule_bit logical_join_to_physical_hash_join = 34
rule_bit logical_join_to_physical_nested_loop_join = 35
rule_bit logical_function_scan_to_physical = 36
rule_bit logical_filter_to_physical = 37
rule_bit logical_project_to_physical = 38
rule_bit logical_show_to_physical = 39
rule_bit logical_explain_to_physical = 40
rule_bit logical_create_index_to_vector_index = 41
rule_bit logical_apply_and_merge_to_physical = 42
rule_bit logical_vector_index_scan_to_physical = 43
rule_bit implementation_delimiter = 44
rule_bit num_rules = 45

-- the value of a member: `auto()` gives a flag's members the powers of two
unfoldable pub rule_value : RuleType → ℕ
rule_value invalid_rule = 0
rule_value t = 2 ^ (rule_bit t - 1)

-- two members are one; members with different bits have different values
abbrev pub eq_rule : RuleType → RuleType → Bool
eq_rule a b = rule_bit a == rule_bit b

-- `Promise`, by the rule type of the same name; the members are numbered from 1. A type that no rule
-- has gets 0.
unfoldable pub promise_of : RuleType → ℕ
promise_of logical_exchange_to_physical = 1
promise_of logical_union_to_physical = 2
promise_of logical_groupby_to_physical = 3
promise_of logical_orderby_to_physical = 4
promise_of logical_limit_to_physical = 5
promise_of logical_insert_to_physical = 6
promise_of logical_delete_to_physical = 7
promise_of logical_rename_to_physical = 8
promise_of logical_drop_object_to_physical = 9
promise_of logical_load_to_physical = 10
promise_of logical_create_to_physical = 11
promise_of logical_create_from_select_to_physical = 12
promise_of logical_create_function_to_physical = 13
promise_of logical_create_function_from_select_to_physical = 14
promise_of logical_sample_to_uniformsample = 15
promise_of logical_get_to_seqscan = 16
promise_of logical_derived_get_to_physical = 17
promise_of logical_lateral_join_to_physical = 18
promise_of logical_join_to_physical_hash_join = 19
promise_of logical_join_to_physical_nested_loop_join = 20
promise_of logical_function_scan_to_physical = 21
promise_of logical_filter_to_physical = 22
promise_of logical_project_to_physical = 23
promise_of logical_show_to_physical = 24
promise_of logical_explain_to_physical = 25
promise_of logical_create_index_to_vector_index = 26
promise_of logical_apply_and_merge_to_physical = 27
promise_of logical_vector_index_scan_to_physical = 28
promise_of implementation_delimiter = 29
promise_of logical_inner_join_commutativity = 30
promise_of cache_function_expresison_in_apply = 31
promise_of cache_function_expresison_in_filter = 32
promise_of cache_function_expresison_in_project = 33
promise_of embed_filter_into_get = 34
promise_of embed_sample_into_get = 35
promise_of xform_extract_object_to_linear_flow = 36
promise_of xform_lateral_join_to_linear_flow = 37
promise_of pushdown_filter_through_join = 38
promise_of pushdown_filter_through_apply_and_merge = 39
promise_of combine_similarity_orderby_and_limit_to_vector_index_scan = 40
promise_of reorder_predicates = 41
promise_of t = 0

unfoldable pub is_implementation_rule : RuleType → Bool
unfolding rule_value
is_implementation_rule t = ltb (rule_value transformation_delimiter) (rule_value t)

unfoldable pub is_logical_rule : RuleType → Bool
unfolding rule_value
is_logical_rule t =
    ltb (rule_value rewrite_delimiter) (rule_value t)
    && ltb (rule_value t) (rule_value transformation_delimiter)

unfoldable pub is_stage_two_rewrite_rules : RuleType → Bool
unfolding rule_value
is_stage_two_rewrite_rules t =
    ltb (rule_value top_down_delimiter) (rule_value t)
    && ltb (rule_value t) (rule_value rewrite_delimiter)

unfoldable pub is_stage_one_rewrite_rules : RuleType → Bool
unfolding rule_value
is_stage_one_rewrite_rules t = ltb (rule_value t) (rule_value top_down_delimiter)
