-- ===== src/Optimizer/Rules/Manager/Switching.antt =====
-- What is left of a list of rules after a rule was switched off, and after it was switched on again.
use eva.Optimizer.Rules.Manager.{
  ManagedRule, RulesManager, remove_from_list, add_to_list, with_disabled_rules,
}
use eva.Optimizer.Rules.RuleType.{RuleType, eq_rule, is_stage_one_rewrite_rules}
use eva.Optimizer.Rules.RuleTypeLaws.{stage_one_is_not_implementation}
use eva.Prelude.{
  ◌≡◌, refl, sym, ap, ◌∙◌, inl, inr, true, false, List, [], ◌∷◌, ◌++◌, arith, if◌then◌else◌,
  Bool-cases,
}
use eva.Prelude.Result.{ok}

-- the rules of the other types, in their order
abbrev pub without : RuleType → List ManagedRule → List ManagedRule
without t [] = []
without t (r ∷ rs) = let rest = without t rs in if eq_rule r.rule_type t then rest else r ∷ rest

abbrev HasNo : RuleType → List ManagedRule → Type 0
HasNo t [] = Unit
HasNo t (r ∷ rs) = (eq_rule r.rule_type t ≡ false) × HasNo t rs

-- no two rules of the list have one type
abbrev pub DistinctTypes : List ManagedRule → Type 0
DistinctTypes [] = Unit
DistinctTypes (r ∷ rs) = HasNo r.rule_type rs × DistinctTypes rs

without-HasNo : (t : RuleType) (rs : List ManagedRule) → HasNo t rs → without t rs ≡ rs
without-HasNo t [] h = refl
without-HasNo t (r ∷ rs) h = rw h.0 (ap (λ l. r ∷ l) (without-HasNo t rs h.1))

HasNo-eq : (a b : RuleType) (rs : List ManagedRule) → eq_rule a b ≡ true → HasNo a rs → HasNo b rs
HasNo-eq a b [] e h = tt
HasNo-eq a b (r ∷ rs) e h = (ground arith, HasNo-eq a b rs e h.1)

-- From a list of rules of distinct types, `_remove_from_list` removes the rule of the type and no other.
pub remove_from_list-DistinctTypes :
    (t : RuleType) (rs : List ManagedRule) → DistinctTypes rs → remove_from_list t rs ≡ without t rs
unfolding remove_from_list
remove_from_list-DistinctTypes t [] h = refl
remove_from_list-DistinctTypes t (r ∷ []) h = refl
remove_from_list-DistinctTypes t (r ∷ s ∷ rs) h = elim (Bool-cases (eq_rule r.rule_type t)) [
  | inl e ↦
      let none_left : HasNo t (s ∷ rs) = HasNo-eq r.rule_type t (s ∷ rs) e h.0 in
      rw e (
        ap (λ l. s ∷ l) (remove_from_list-DistinctTypes t rs h.1.1 ∙ without-HasNo t rs none_left.1)
        ∙ sym (without-HasNo t (s ∷ rs) none_left))
  | inr e ↦ rw e (ap (λ l. r ∷ l) (remove_from_list-DistinctTypes t (s ∷ rs) h.1))
]

-- a rule put at the end of a list, unless the list is empty
abbrev pub put_back : ManagedRule → List ManagedRule → List ManagedRule
put_back r [] = []
put_back r (s ∷ rs) = (s ∷ rs) ++ r ∷ []

any_differs-without :
    (r : ManagedRule) (rs : List ManagedRule)
    → add_to_list r (without r.rule_type rs) ≡ put_back r (without r.rule_type rs)
unfolding add_to_list
any_differs-without r [] = refl
any_differs-without r (s ∷ rs) = elim (Bool-cases (eq_rule s.rule_type r.rule_type)) [
  | inl e ↦ rw e (any_differs-without r rs)
  | inr e ↦ rw (e, e)
]

-- In a list of rules of distinct types, switching a rule off and on again moves it to the end of the
-- list, and loses it where the list held no rule of another type.
pub add_to_list-remove_from_list :
    (r : ManagedRule) (rs : List ManagedRule)
    → DistinctTypes rs
    → add_to_list r (remove_from_list r.rule_type rs) ≡ put_back r (without r.rule_type rs)
add_to_list-remove_from_list r rs h =
    ap (add_to_list r) (remove_from_list-DistinctTypes r.rule_type rs h) ∙ any_differs-without r rs

lone_rule : (r : ManagedRule) → add_to_list r (remove_from_list r.rule_type (r ∷ [])) ≡ []
lone_rule r = add_to_list-remove_from_list r (r ∷ []) (tt, tt) ∙ ground arith

-- A rule that is the only one of the first rewrite stage is gone after the block in which it was disabled.
pub with_disabled_rules_loses :
    (m : RulesManager) (r : ManagedRule)
    → is_stage_one_rewrite_rules r.rule_type ≡ true
    → m.stage_one_rewrite_rules ≡ r ∷ []
    → with_disabled_rules (r ∷ []) m ≡ ok (record m { stage_one_rewrite_rules = [] })
unfolding with_disabled_rules
with_disabled_rules_loses m r h e =
    rw (stage_one_is_not_implementation r.rule_type h, h, e)
      (rw (stage_one_is_not_implementation r.rule_type h, h)
        (ap (λ l. ok (record m { stage_one_rewrite_rules = l })) (lone_rule r)))
