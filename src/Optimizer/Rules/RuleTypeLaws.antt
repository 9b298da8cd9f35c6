-- ===== src/Optimizer/Rules/RuleTypeLaws.antt =====
-- The four stages of the optimizer share the rules out.
use eva.Optimizer.Rules.RuleType.{
  RuleType, top_down_delimiter, rewrite_delimiter, transformation_delimiter, num_rules,
  is_implementation_rule, is_logical_rule, is_stage_two_rewrite_rules, is_stage_one_rewrite_rules,
}
use eva.Prelude.{ℕ, suc, ◌≡◌, refl, Bool, true, false, List, [], ◌∷◌, if◌then◌else◌}

-- the delimiters between the stages
abbrev pub is_delimiter : RuleType → Bool
is_delimiter top_down_delimiter = true
is_delimiter rewrite_delimiter = true
is_delimiter transformation_delimiter = true
is_delimiter _ = false

abbrev pub count_true : List Bool → ℕ
count_true [] = 0
count_true (true ∷ bs) = suc (count_true bs)
count_true (false ∷ bs) = count_true bs

-- the four tests of `Rule` on a rule type
abbrev pub stages : RuleType → List Bool
stages t =
    is_stage_one_rewrite_rules t
    ∷ is_stage_two_rewrite_rules t
    ∷ is_logical_rule t
    ∷ is_implementation_rule t
    ∷ []

-- A rule type belongs to exactly one of the four stages, and a delimiter to none.
pub stages_disjoint : (t : RuleType) → count_true (stages t) ≡ (if is_delimiter t then 0 else 1)
unfolding is_stage_one_rewrite_rules is_stage_two_rewrite_rules is_logical_rule
    is_implementation_rule
stages_disjoint top_down_delimiter = refl
stages_disjoint _ = refl

pub stage_one_is_not_implementation :
    (t : RuleType) → is_stage_one_rewrite_rules t ≡ true → is_implementation_rule t ≡ false
unfolding is_stage_one_rewrite_rules is_implementation_rule
stage_one_is_not_implementation num_rules h = cc
stage_one_is_not_implementation _ h = cc
