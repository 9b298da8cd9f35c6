-- ===== src/Examples/Rules.antt =====
-- The theorems on the rules manager, at two rules of the first stage.
use eva.Optimizer.Rules.Manager.{ManagedRule, RulesManager, with_disabled_rules}
use eva.Optimizer.Rules.Manager.Switching.{with_disabled_rules_loses}
use eva.Optimizer.Rules.RuleType.{
  xform_lateral_join_to_linear_flow, xform_extract_object_to_linear_flow,
  is_stage_one_rewrite_rules,
}
use eva.Prelude.{◌≡◌, refl, [], ◌∷◌}
use eva.Prelude.Result.{ok}

abbrev lateral : ManagedRule
lateral = record {
  name = "XformLateralJoinToLinearFlow";
  rule_type = xform_lateral_join_to_linear_flow;
}

abbrev extract : ManagedRule
extract = record {
  name = "XformExtractObjectToLinearFlow";
  rule_type = xform_extract_object_to_linear_flow;
}

abbrev manager : RulesManager
manager = record {
  stage_one_rewrite_rules = lateral ∷ [];
  stage_two_rewrite_rules = [];
  logical_rules = [];
  implementation_rules = [];
}

with_disabled_rules_loses_example :
    with_disabled_rules (lateral ∷ []) manager
    ≡ ok (record manager { stage_one_rewrite_rules = [] })
unfolding is_stage_one_rewrite_rules
with_disabled_rules_loses_example = with_disabled_rules_loses manager lateral refl refl
