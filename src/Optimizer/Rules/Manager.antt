-- ===== src/Optimizer/Rules/Manager.antt =====
-- optimizer/rules/rules_manager.py: the lists of rules, and switching rules off and on again.
pub mod Switching
pub mod Init
use eva.Optimizer.Rules.RuleType.{
  RuleType, eq_rule, is_implementation_rule, is_logical_rule, is_stage_two_rewrite_rules,
  is_stage_one_rewrite_rules,
}
use eva.Prelude.{String, Bool, false, not, ◌||◌, List, [], ◌∷◌, ◌++◌, if◌then◌else◌}
use eva.Prelude.Result.{assertion_error, Result, ok, err, ◌>>=◌}

-- a rule class, by what the manager looks at
pub record ManagedRule : Type 0 where
  pub name : String
  pub rule_type : RuleType

pub record RulesManager : Type 0 where
  pub stage_one_rewrite_rules : List ManagedRule
  pub stage_two_rewrite_rules : List ManagedRule
  pub logical_rules : List ManagedRule
  pub implementation_rules : List ManagedRule

-- `for rule in rule_list: if ...: rule_list.remove(rule)`. The loop goes by position, so that it
-- skips the rule that moves up into the place of a removed one.
unfoldable pub remove_from_list : RuleType → List ManagedRule → List ManagedRule
remove_from_list t [] = []
remove_from_list t (r ∷ []) = if eq_rule r.rule_type t then [] else r ∷ []
remove_from_list t (r ∷ s ∷ rs) =
    let skipped : List ManagedRule = s ∷ remove_from_list t rs in
    let went_on : List ManagedRule = r ∷ remove_from_list t (s ∷ rs) in
    if eq_rule r.rule_type t then skipped else went_on

-- `any([rule.rule_type != rule_to_remove.rule_type for rule in rule_list])`
unfoldable pub any_differs : RuleType → List ManagedRule → Bool
any_differs t [] = false
any_differs t (r ∷ rs) = not (eq_rule r.rule_type t) || any_differs t rs

unfoldable pub add_to_list : ManagedRule → List ManagedRule → List ManagedRule
unfolding any_differs
add_to_list r rs = if any_differs r.rule_type rs then rs ++ r ∷ [] else rs

-- the list of the stage of a rule, changed by a function; a rule of no stage fails the assertion
unfoldable pub on_stage :
    RuleType → (List ManagedRule → List ManagedRule) → RulesManager → Result RulesManager
on_stage t f m =
    if is_implementation_rule t
    then ok (record m { implementation_rules = f m.implementation_rules })
    else if is_stage_one_rewrite_rules t
    then ok (record m { stage_one_rewrite_rules = f m.stage_one_rewrite_rules })
    else if is_stage_two_rewrite_rules t
    then ok (record m { stage_two_rewrite_rules = f m.stage_two_rewrite_rules })
    else if is_logical_rule t
    then ok (record m { logical_rules = f m.logical_rules })
    else err assertion_error

unfoldable pub disable_rules : List ManagedRule → RulesManager → Result RulesManager
unfolding on_stage remove_from_list
disable_rules [] m = ok m
disable_rules (r ∷ rs) m =
    on_stage r.rule_type (remove_from_list r.rule_type) m >>= disable_rules rs

unfoldable pub add_rules : List ManagedRule → RulesManager → Result RulesManager
unfolding on_stage add_to_list
add_rules [] m = ok m
add_rules (r ∷ rs) m = on_stage r.rule_type (add_to_list r) m >>= add_rules rs

-- the context manager `disable_rules`, around a body that leaves the manager alone
unfoldable pub with_disabled_rules : List ManagedRule → RulesManager → Result RulesManager
unfolding disable_rules add_rules
with_disabled_rules rules m = disable_rules rules m >>= add_rules rules
