-- ===== src/Optimizer/StatementToPlan/ImplementedQueries.antt =====
-- Every operator of a query has a rule that turns it into a plan node, but for samples and
-- EXTRACT_OBJECT, which earlier rules have to take away.
use eva.Expression.Types.{Value, Expr}
use eva.Optimizer.Operators.{
  Alias, SortType, LogicalOperator, query_derived_get_opr, filter_opr, project_opr, group_by_opr,
  order_by_opr, limit_opr, union_opr, function_scan_opr, logical_type, logical_operator, Tree, tree,
  no_trees,
}
use eva.Optimizer.RewriteRules.Shared.{node1, node2}
use eva.Optimizer.Rules.Manager.{ManagedRule}
use eva.Optimizer.StatementToPlan.Coverage.{
  has_rule, is_implemented, is_direct_ref, is_direct_handle, is_direct, is_direct_link,
  implementation_rules_of, query_rule,
}
use eva.Optimizer.StatementToPlan.Defs.{
  alone, is_extract_object, table_valued_opr, table_get, join_of,
}
use eva.Optimizer.StatementToPlan.Independent.{
  optional, with_clauses, plan_of_table, plan_of_handle, plan_of_select, plan_of_union,
}
use eva.Parser.Statements.{
  TableRef, table_ref, RefHandle, table_info, table_valued_expression, nested_select, join_node,
  SelectStatement, select_statement, no_table, from_table, UnionLink, no_link, union_link,
}
use eva.Prelude.{
  ◌≡◌, refl, subst, Bool, true, false, not, Option, none, some, List, [], arith, &&-eq-true,
}
use eva.Prelude.Result.{ok, ◌>>=◌, ok-injective, >>=-eq-ok}

table_valued_opr-plain :
    (func_expr : Expr) (do_unnest : Bool) (alias : Alias)
    → not (is_extract_object func_expr) ≡ true
    → table_valued_opr func_expr do_unnest alias
      ≡ ok (
          function_scan_opr
            (record { func_expr = func_expr; alias = alias; do_unnest = do_unnest }))
unfolding table_valued_opr
table_valued_opr-plain func_expr do_unnest alias h =
    let other : is_extract_object func_expr ≡ false = ground arith in rw other refl

module _ (ray : Bool) where
  abbrev rules : List ManagedRule
  rules = implementation_rules_of ray

  implemented0 :
      (l : LogicalOperator)
      → has_rule rules (logical_type l) 0 ≡ true
      → is_implemented rules (tree (logical_operator l) no_trees) ≡ true
  unfolding is_implemented
  implemented0 l h = rw h refl

  pub implemented-alone :
      (l : LogicalOperator) (plan : Tree)
      → has_rule rules (logical_type l) 0 ≡ true
      → ok (alone l) ≡ ok (some plan)
      → is_implemented rules plan ≡ true
  implemented-alone l plan rule h =
      subst (λ t. is_implemented rules t ≡ true) (made h) (implemented0 l rule)
    where
      made : {a b : Tree} → ok (some a) ≡ ok (some b) → a ≡ b
      made e = cc

  pub implemented1 :
      (l : LogicalOperator) (plan : Tree)
      → has_rule rules (logical_type l) 1 ≡ true
      → is_implemented rules plan ≡ true
      → is_implemented rules (node1 l plan) ≡ true
  unfolding is_implemented
  implemented1 l plan h k = rw (h, k) refl

  implemented2 :
      (l : LogicalOperator) (left right : Tree)
      → has_rule rules (logical_type l) 2 ≡ true
      → is_implemented rules left ≡ true
      → is_implemented rules right ≡ true
      → is_implemented rules (node2 l left right) ≡ true
  unfolding is_implemented
  implemented2 l left right h j k = rw (h, j, k) refl

  implemented-optional {ℓ} :
      {A : Type ℓ} (opr : A → LogicalOperator) (a : Option A) (plan : Tree)
      → ((x : A) → has_rule rules (logical_type (opr x)) 1 ≡ true)
      → is_implemented rules plan ≡ true
      → is_implemented rules (optional opr a plan) ≡ true
  implemented-optional opr none plan h k = k
  implemented-optional opr (some x) plan h k = implemented1 (opr x) plan (h x) k

  implemented-with_clauses :
      (groupby : Option Value) (orderby : Option (List (Expr × SortType))) (limit : Option Value)
      (targets : Option (List Expr)) (plan : Tree)
      → is_implemented rules plan ≡ true
      → is_implemented rules (with_clauses groupby orderby limit targets plan) ≡ true
  implemented-with_clauses groupby orderby limit targets plan k =
      let (g, f, q, j, u, w, groups, orders, limits, projects) = query_rule ray in
      implemented-optional project_opr targets _ (λ x. projects)
        (implemented-optional limit_opr limit _ (λ x. limits)
          (implemented-optional order_by_opr orderby _ (λ x. orders)
            (implemented-optional group_by_opr groupby plan (λ x. groups) k)))

  mutual
    unfolding plan_of_select is_direct

    implemented-plan_of_table :
        (t : TableRef) (plan : Tree)
        → is_direct_ref t ≡ true
        → plan_of_table t ≡ ok plan
        → is_implemented rules plan ≡ true
    implemented-plan_of_table (table_ref handle alias none type) plan k h =
        let (p, made, same) = >>=-eq-ok (plan_of_handle handle alias) (λ p. ok p) h in
        rw (← ok-injective same) (implemented-plan_of_handle handle alias p k made)
    implemented-plan_of_table (table_ref handle alias (some freq) type) plan k h = absurd (cc)

    implemented-plan_of_handle :
        (r : RefHandle) (alias : Alias) (plan : Tree)
        → is_direct_handle r ≡ true
        → plan_of_handle r alias ≡ ok plan
        → is_implemented rules plan ≡ true
    implemented-plan_of_handle (table_info table_obj) alias plan k h =
        rw (← ok-injective h) (implemented0 (table_get table_obj alias) (query_rule ray).0)
    implemented-plan_of_handle (table_valued_expression func_expr do_unnest) alias plan k h =
        rw (← ok-injective (rw (table_valued_opr-plain func_expr do_unnest alias k) at h)) (
          implemented0
            (function_scan_opr
              (record { func_expr = func_expr; alias = alias; do_unnest = do_unnest }))
            (query_rule ray).1)
    implemented-plan_of_handle (nested_select statement) alias plan k h =
        let (p, made, same) =
          >>=-eq-ok (plan_of_select statement)
            (λ p. ok (node1 (query_derived_get_opr alias.alias_name none []) p)) h in
        rw (← ok-injective same) (
          implemented1 (query_derived_get_opr alias.alias_name none []) p (query_rule ray).2
            (implemented-plan_of_select statement p k made))
    implemented-plan_of_handle (join_node left right on_condition join_type) alias plan k h =
        let (p, made, rest) =
          >>=-eq-ok (plan_of_table left)
            (λ p. plan_of_table right >>= λ q. ok (node2 (join_of join_type on_condition) p q)) h in
        let (q, made_too, same) =
          >>=-eq-ok (plan_of_table right) (λ q. ok (node2 (join_of join_type on_condition) p q))
            rest in
        let plain = &&-eq-true (is_direct_ref left) (is_direct_ref right) k in
        rw (← ok-injective same) (
          implemented2 (join_of join_type on_condition) p q (query_rule ray).3
            (implemented-plan_of_table left p plain.0 made)
            (implemented-plan_of_table right q plain.1 made_too))

    pub implemented-plan_of_select :
        (s : SelectStatement) (plan : Tree)
        → is_direct s ≡ true
        → plan_of_select s ≡ ok plan
        → is_implemented rules plan ≡ true
    implemented-plan_of_select
          (select_statement no_table where_clause link all groupby orderby limit targets) plan k h =
        absurd (cc)
    implemented-plan_of_select
          (select_statement (from_table table) where_clause link all groupby orderby limit targets)
          plan k h =
        let (p, made, rest) =
          >>=-eq-ok (plan_of_table table)
            (λ p. plan_of_union link all (optional filter_opr where_clause p) >>= λ q.
              ok (with_clauses groupby orderby limit targets q))
            h in
        let (q, united, same) =
          >>=-eq-ok (plan_of_union link all (optional filter_opr where_clause p))
            (λ q. ok (with_clauses groupby orderby limit targets q)) rest in
        let plain = &&-eq-true (is_direct_ref table) (is_direct_link link) k in
        rw (← ok-injective same) (
          implemented-with_clauses groupby orderby limit targets q (
            implemented-plan_of_union link all (optional filter_opr where_clause p) q plain.1
              (implemented-optional filter_opr where_clause p (λ x. (query_rule ray).5)
                (implemented-plan_of_table table p plain.0 made))
              united))

    implemented-plan_of_union :
        (l : UnionLink) (all : Bool) (left plan : Tree)
        → is_direct_link l ≡ true
        → is_implemented rules left ≡ true
        → plan_of_union l all left ≡ ok plan
        → is_implemented rules plan ≡ true
    implemented-plan_of_union no_link all left plan k done h = rw (← ok-injective h) done
    implemented-plan_of_union (union_link target) all left plan k done h =
        let (q, made, same) =
          >>=-eq-ok (plan_of_select target) (λ q. ok (node2 (union_opr all) left q)) h in
        rw (← ok-injective same) (
          implemented2 (union_opr all) left q (query_rule ray).4 done
            (implemented-plan_of_select target q k made))
