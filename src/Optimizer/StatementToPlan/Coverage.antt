-- ===== src/Optimizer/StatementToPlan/Coverage.antt =====
-- Which operators an implementation rule matches whatever their children are.
use eva.Optimizer.Memo.Binder.{pattern_of, Patterns, no_patterns, more_patterns, pattern_type}
use eva.Optimizer.OperatorType.{
  OperatorType, opr_dummy, logicalget, logicalfilter, logicalproject, logicalqueryderivedget,
  logicalunion, logicalgroupby, logicalorderby, logicallimit, logicaljoin, logicalfunctionscan,
  eq_operator_type,
}
use eva.Optimizer.Operators.{
  logical_type, logical_operator, Tree, tree, Trees, no_trees, more_trees,
}
use eva.Optimizer.Rules.Manager.{ManagedRule}
use eva.Optimizer.Rules.Manager.Init.{new_rules_manager}
use eva.Optimizer.Rules.Patterns.{rule_pattern}
use eva.Optimizer.Rules.RuleType.{RuleType}
use eva.Optimizer.StatementToPlan.Defs.{is_extract_object}
use eva.Parser.Statements.{
  TableRef, table_ref, RefHandle, table_info, table_valued_expression, nested_select, join_node,
  SelectStatement, select_statement, no_table, from_table, UnionLink, no_link, union_link,
}
use eva.Prelude.{
  ℕ, zero, suc, ◌≡◌, refl, Bool, true, false, not, ◌&&◌, ◌||◌, none, some, List, [], ◌∷◌,
}

-- a pattern's children are so many, and match any plan
unfoldable pub all_dummies : Patterns → ℕ → Bool
all_dummies no_patterns zero = true
all_dummies (more_patterns p ps) (suc n) =
    eq_operator_type (pattern_type p) opr_dummy && all_dummies ps n
all_dummies ps n = false

-- a rule matches every operator of a type with so many children
unfoldable pub fits : RuleType → OperatorType → ℕ → Bool
unfolding rule_pattern all_dummies
fits r t n = elim (rule_pattern r) [
  | none ↦ false
  | some (pattern_of u ps) ↦ eq_operator_type u t && all_dummies ps n
]

unfoldable pub has_rule : List ManagedRule → OperatorType → ℕ → Bool
unfolding fits
has_rule [] t n = false
has_rule (r ∷ rs) t n = fits r.rule_type t n || has_rule rs t n

unfoldable pub count_trees : Trees → ℕ
count_trees no_trees = 0
count_trees (more_trees t ts) = suc (count_trees ts)

-- every operator of a plan has an implementation rule
unfoldable mutual
  unfolding has_rule count_trees

  pub is_implemented : List ManagedRule → Tree → Bool
  is_implemented rules (tree (logical_operator l) ts) =
      has_rule rules (logical_type l) (count_trees ts) && all_implemented rules ts
  is_implemented rules (tree opr ts) = all_implemented rules ts

  pub all_implemented : List ManagedRule → Trees → Bool
  all_implemented rules no_trees = true
  all_implemented rules (more_trees t ts) = is_implemented rules t && all_implemented rules ts

-- nothing is sampled, and no table-valued expression is EXTRACT_OBJECT
unfoldable mutual
  pub is_direct_ref : TableRef → Bool
  is_direct_ref (table_ref handle alias none type) = is_direct_handle handle
  is_direct_ref (table_ref handle alias (some freq) type) = false

  pub is_direct_handle : RefHandle → Bool
  is_direct_handle (table_info table_obj) = true
  is_direct_handle (table_valued_expression func_expr do_unnest) = not (is_extract_object func_expr)
  is_direct_handle (nested_select statement) = is_direct statement
  is_direct_handle (join_node left right on_condition join_type) =
      is_direct_ref left && is_direct_ref right

  pub is_direct : SelectStatement → Bool
  is_direct (select_statement no_table where_clause link all groupby orderby limit targets) = true
  is_direct
        (select_statement (from_table table) where_clause link all groupby orderby limit targets) =
      is_direct_ref table && is_direct_link link

  pub is_direct_link : UnionLink → Bool
  is_direct_link no_link = true
  is_direct_link (union_link statement) = is_direct statement

-- the rules that turn operators into plan nodes, with Ray or without
unfoldable pub implementation_rules_of : Bool → List ManagedRule
unfolding new_rules_manager
implementation_rules_of ray = (new_rules_manager ray).implementation_rules

-- one operator of each kind that queries have, with its number of children
pub query_rule :
    (ray : Bool)
    → (has_rule (implementation_rules_of ray) logicalget 0 ≡ true)
      × (has_rule (implementation_rules_of ray) logicalfunctionscan 0 ≡ true)
      × (has_rule (implementation_rules_of ray) logicalqueryderivedget 1 ≡ true)
      × (has_rule (implementation_rules_of ray) logicaljoin 2 ≡ true)
      × (has_rule (implementation_rules_of ray) logicalunion 2 ≡ true)
      × (has_rule (implementation_rules_of ray) logicalfilter 1 ≡ true)
      × (has_rule (implementation_rules_of ray) logicalgroupby 1 ≡ true)
      × (has_rule (implementation_rules_of ray) logicalorderby 1 ≡ true)
      × (has_rule (implementation_rules_of ray) logicallimit 1 ≡ true)
      × (has_rule (implementation_rules_of ray) logicalproject 1 ≡ true)
unfolding has_rule implementation_rules_of
query_rule true = (refl, refl, refl, refl, refl, refl, refl, refl, refl, refl)
query_rule false = (refl, refl, refl, refl, refl, refl, refl, refl, refl, refl)
