-- ===== src/Optimizer/StatementToPlan/Conditions.antt =====
-- The conditions of a statement are those of its plan.
use eva.Expression.Conjunction.Meaning.{holds_opt}
use eva.Expression.Holds.{holds}
use eva.Expression.Types.{Value, Expr, Exprs, cons, children}
use eva.Optimizer.Operators.{
  Alias, SortType, LogicalOperator, query_derived_get_opr, filter_opr, project_opr, group_by_opr,
  order_by_opr, limit_opr, sample_opr, union_opr, logical_operator, Tree, tree, no_trees,
}
use eva.Optimizer.RewriteRules.Shared.{node1, node2, own_condition, passes}
use eva.Optimizer.StatementToPlan.Defs.{
  is_extract_object, extract_object, table_valued_opr, join_of, visit_select,
}
use eva.Optimizer.StatementToPlan.Independent.{
  optional, with_clauses, plan_of_table, plan_of_handle, plan_of_select, plan_of_union, has_tables,
  kept, visit_select-kept,
}
use eva.Parser.Statements.{
  TableRef, table_ref, RefHandle, table_info, table_valued_expression, nested_select, join_node,
  SelectStatement, select_statement, no_table, from_table, UnionLink, no_link, union_link,
}
use eva.Prelude.{
  ◌≡◌, refl, sym, ap, ap₂, ◌∙◌, inl, inr, Bool, true, ◌&&◌, Option, none, some, List, [],
  Bool-cases, and_true,
}
use eva.Prelude.Result.{Result, err, ok, ◌>>=◌, ok-injective, >>=-eq-ok}

-- whether a row satisfies the ON and WHERE conditions of a query, those of nested and united queries
-- included
unfoldable mutual
  pub satisfies_ref : (Expr → Bool) → TableRef → Bool
  satisfies_ref atom (table_ref handle alias freq type) = satisfies_handle atom handle

  pub satisfies_handle : (Expr → Bool) → RefHandle → Bool
  satisfies_handle atom (table_info table_obj) = true
  satisfies_handle atom (table_valued_expression func_expr do_unnest) = true
  satisfies_handle atom (nested_select statement) = satisfies atom statement
  satisfies_handle atom (join_node left right on_condition join_type) =
      holds_opt atom on_condition && (satisfies_ref atom left && satisfies_ref atom right)

  pub satisfies : (Expr → Bool) → SelectStatement → Bool
  satisfies atom (select_statement no_table where_clause link all groupby orderby limit targets) =
      true
  satisfies atom
        (select_statement (from_table table) where_clause link all groupby orderby limit targets) =
      (holds_opt atom where_clause && satisfies_ref atom table) && satisfies_link atom link

  pub satisfies_link : (Expr → Bool) → UnionLink → Bool
  satisfies_link atom no_link = true
  satisfies_link atom (union_link statement) = satisfies atom statement

module _ (atom : Expr → Bool) where
  -- an operator without a condition, above a plan
  passes-optional {ℓ} :
      {A : Type ℓ} (opr : A → LogicalOperator) (a : Option A) (plan : Tree)
      → ((x : A) → own_condition (logical_operator (opr x)) ≡ none)
      → passes atom (optional opr a plan) ≡ passes atom plan
  unfolding passes
  passes-optional opr none plan h = refl
  passes-optional opr (some x) plan h = rw (h x) (and_true (passes atom plan))

  passes-with_clauses :
      (groupby : Option Value) (orderby : Option (List (Expr × SortType))) (limit : Option Value)
      (targets : Option (List Expr)) (plan : Tree)
      → passes atom (with_clauses groupby orderby limit targets plan) ≡ passes atom plan
  passes-with_clauses groupby orderby limit targets plan =
      passes-optional project_opr targets _ (λ x. refl)
      ∙ passes-optional limit_opr limit _ (λ x. refl)
      ∙ passes-optional order_by_opr orderby _ (λ x. refl)
      ∙ passes-optional group_by_opr groupby plan (λ x. refl)

  extract_object-unconditional :
      (es : Exprs) (do_unnest : Bool) (alias : Alias) (opr : LogicalOperator)
      → extract_object es do_unnest alias ≡ ok opr
      → own_condition (logical_operator opr) ≡ none
  unfolding extract_object
  extract_object-unconditional (cons a (cons d (cons t es))) do_unnest alias opr h =
      rw (← ok-injective h) refl
  extract_object-unconditional es do_unnest alias opr h = absurd (cc)

  passes-alone :
      (func_expr : Expr) (do_unnest : Bool) (alias : Alias) (opr : LogicalOperator)
      → table_valued_opr func_expr do_unnest alias ≡ ok opr
      → passes atom (tree (logical_operator opr) no_trees) ≡ true
  unfolding table_valued_opr passes
  passes-alone func_expr do_unnest alias opr h = elim (Bool-cases (is_extract_object func_expr)) [
    | inl e ↦
        rw (extract_object-unconditional (children func_expr) do_unnest alias opr (rw e at h)) refl
    | inr e ↦ rw (← ok-injective (rw e at h)) refl
  ]

  passes-filtered :
      (where_clause : Option Expr) (plan : Tree)
      → passes atom (optional filter_opr where_clause plan)
        ≡ (holds_opt atom where_clause && passes atom plan)
  unfolding passes
  passes-filtered none plan = refl
  passes-filtered (some e) plan = ap (λ b. holds atom e && b) (and_true (passes atom plan))

  mutual
    unfolding passes plan_of_select satisfies

    passes-plan_of_table :
        (t : TableRef) (plan : Tree)
        → plan_of_table t ≡ ok plan
        → passes atom plan ≡ satisfies_ref atom t
    passes-plan_of_table (table_ref handle alias freq type) plan h =
        let (p, made, same) =
          >>=-eq-ok (plan_of_handle handle alias)
            (λ p. ok (optional (λ f. sample_opr f type) freq p)) h in
        rw (← ok-injective same) (
          passes-optional (λ f. sample_opr f type) freq p (λ x. refl)
          ∙ passes-plan_of_handle handle alias p made)

    passes-plan_of_handle :
        (r : RefHandle) (alias : Alias) (plan : Tree)
        → plan_of_handle r alias ≡ ok plan
        → passes atom plan ≡ satisfies_handle atom r
    passes-plan_of_handle (table_info table_obj) alias plan h = rw (← ok-injective h) refl
    passes-plan_of_handle (table_valued_expression func_expr do_unnest) alias plan h =
        let (opr, made, same) =
          >>=-eq-ok (table_valued_opr func_expr do_unnest alias)
            (λ o. ok (tree (logical_operator o) no_trees)) h in
        rw (← ok-injective same) (passes-alone func_expr do_unnest alias opr made)
    passes-plan_of_handle (nested_select statement) alias plan h =
        let (p, made, same) =
          >>=-eq-ok (plan_of_select statement)
            (λ p. ok (node1 (query_derived_get_opr alias.alias_name none []) p)) h in
        rw (← ok-injective same) (and_true (passes atom p) ∙ passes-plan_of_select statement p made)
    passes-plan_of_handle (join_node left right on_condition join_type) alias plan h =
        let (p, made, rest) =
          >>=-eq-ok (plan_of_table left)
            (λ p. plan_of_table right >>= λ q. ok (node2 (join_of join_type on_condition) p q)) h in
        let (q, made_too, same) =
          >>=-eq-ok (plan_of_table right) (λ q. ok (node2 (join_of join_type on_condition) p q))
            rest in
        rw (← ok-injective same) (
          ap (λ b. holds_opt atom on_condition && b)
            (ap₂ ◌&&◌ (passes-plan_of_table left p made)
              (and_true (passes atom q) ∙ passes-plan_of_table right q made_too)))

    passes-plan_of_select :
        (s : SelectStatement) (plan : Tree)
        → plan_of_select s ≡ ok plan
        → passes atom plan ≡ satisfies atom s
    passes-plan_of_select
          (select_statement no_table where_clause link all groupby orderby limit targets) plan h =
        absurd (cc)
    passes-plan_of_select
          (select_statement (from_table table) where_clause link all groupby orderby limit targets)
          plan h =
        let (p, made, rest) =
          >>=-eq-ok (plan_of_table table)
            (λ p. plan_of_union link all (optional filter_opr where_clause p) >>= λ q.
              ok (with_clauses groupby orderby limit targets q))
            h in
        let (q, united, same) =
          >>=-eq-ok (plan_of_union link all (optional filter_opr where_clause p))
            (λ q. ok (with_clauses groupby orderby limit targets q)) rest in
        rw (← ok-injective same) (
          passes-with_clauses groupby orderby limit targets q
          ∙ passes-plan_of_union link all (optional filter_opr where_clause p) q united
          ∙ ap (λ b. b && satisfies_link atom link)
              (passes-filtered where_clause p
                ∙ ap (λ b. holds_opt atom where_clause && b) (passes-plan_of_table table p made)))

    passes-plan_of_union :
        (l : UnionLink) (all : Bool) (left plan : Tree)
        → plan_of_union l all left ≡ ok plan
        → passes atom plan ≡ (passes atom left && satisfies_link atom l)
    passes-plan_of_union no_link all left plan h =
        rw (← ok-injective h) (sym (and_true (passes atom left)))
    passes-plan_of_union (union_link target) all left plan h =
        let (q, made, same) =
          >>=-eq-ok (plan_of_select target) (λ q. ok (node2 (union_opr all) left q)) h in
        rw (← ok-injective same) (
          ap (λ b. passes atom left && b)
            (and_true (passes atom q) ∙ passes-plan_of_select target q made))

-- Where a query, every query nested in it and every query united with one of these has a FROM clause,
-- a plan that the query gets holds its conditions: a row satisfies those of the plan exactly when it
-- satisfies the WHERE and ON conditions of all these queries.
pub passes-visit_select :
    (atom : Expr → Bool) (s : SelectStatement) (before : Option Tree) (plan : Tree)
    → has_tables s ≡ true
    → visit_select s before ≡ ok (some plan)
    → passes atom plan ≡ satisfies atom s
passes-visit_select atom s before plan tables h =
    passes-plan_of_select atom s plan
      (plan_of (plan_of_select s) (sym (visit_select-kept s before tables) ∙ h))
  where
    plan_of : (m : Result Tree) → kept m ≡ ok (some plan) → m ≡ ok plan
    plan_of (ok p) k = cc
    plan_of (err e) k = absurd (cc)
