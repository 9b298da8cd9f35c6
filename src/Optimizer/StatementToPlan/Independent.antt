-- ===== src/Optimizer/StatementToPlan/Independent.antt =====
-- The converter against a translation without a field: each part of a statement has its own plan.
use eva.Expression.Types.{Value, Expr}
use eva.Optimizer.Operators.{
  Alias, SortType, LogicalOperator, query_derived_get_opr, filter_opr, project_opr, group_by_opr,
  order_by_opr, limit_opr, sample_opr, union_opr, logical_operator, Tree, tree, no_trees,
}
use eva.Optimizer.RewriteRules.Shared.{node1, node2}
use eva.Optimizer.StatementToPlan.Defs.{
  put_above, put_above_both, alone, table_valued_opr, table_get, join_of, clause, visit_sample,
  visit_clauses, visit_table_ref, visit_handle, visit_select, visit_union,
}
use eva.Parser.Statements.{
  TableRef, table_ref, RefHandle, table_info, table_valued_expression, nested_select, join_node,
  SelectStatement, select_statement, no_table, from_table, UnionLink, no_link, union_link,
}
use eva.Prelude.{◌≡◌, refl, Bool, true, false, ◌&&◌, Option, none, some, List, [], &&-eq-true}
use eva.Prelude.Result.{unsupported, Result, err, ok, ◌>>=◌}

-- an operator above a plan, where the clause is there
abbrev pub optional {ℓ} : {A : Type ℓ} → (A → LogicalOperator) → Option A → Tree → Tree
optional opr none plan = plan
optional opr (some a) plan = node1 (opr a) plan

-- the clauses that stand above the union, from the innermost to the outermost
abbrev pub with_clauses :
    Option Value → Option (List (Expr × SortType)) → Option Value → Option (List Expr) → Tree → Tree
with_clauses groupby orderby limit targets plan =
    optional project_opr targets (
      optional limit_opr limit (optional order_by_opr orderby (optional group_by_opr groupby plan)))

unfoldable mutual
  pub plan_of_table : TableRef → Result Tree
  plan_of_table (table_ref handle alias freq type) =
      plan_of_handle handle alias >>= λ plan. ok (optional (λ f. sample_opr f type) freq plan)

  pub plan_of_handle : RefHandle → Alias → Result Tree
  plan_of_handle (table_info table_obj) alias =
      ok (tree (logical_operator (table_get table_obj alias)) no_trees)
  plan_of_handle (table_valued_expression func_expr do_unnest) alias =
      table_valued_opr func_expr do_unnest alias >>= λ opr.
      ok (tree (logical_operator opr) no_trees)
  plan_of_handle (nested_select statement) alias = plan_of_select statement >>= λ plan.
      ok (node1 (query_derived_get_opr alias.alias_name none []) plan)
  plan_of_handle (join_node left right predicate join_type) alias =
      plan_of_table left >>= λ left_plan. plan_of_table right >>= λ right_plan.
      ok (node2 (join_of join_type predicate) left_plan right_plan)

  pub plan_of_select : SelectStatement → Result Tree
  plan_of_select (select_statement no_table where_clause link all groupby orderby limit targets) =
      err unsupported
  plan_of_select
        (select_statement (from_table table) where_clause link all groupby orderby limit targets) =
      plan_of_table table >>= λ tables.
      plan_of_union link all (optional filter_opr where_clause tables) >>= λ plan.
      ok (with_clauses groupby orderby limit targets plan)

  pub plan_of_union : UnionLink → Bool → Tree → Result Tree
  plan_of_union no_link all left_plan = ok left_plan
  plan_of_union (union_link target) all left_plan =
      plan_of_select target >>= λ right_plan. ok (node2 (union_opr all) left_plan right_plan)

-- every query of a statement has a FROM clause
unfoldable mutual
  pub has_tables_ref : TableRef → Bool
  has_tables_ref (table_ref handle alias freq type) = has_tables_handle handle

  pub has_tables_handle : RefHandle → Bool
  has_tables_handle (table_info table_obj) = true
  has_tables_handle (table_valued_expression func_expr do_unnest) = true
  has_tables_handle (nested_select statement) = has_tables statement
  has_tables_handle (join_node left right predicate join_type) =
      has_tables_ref left && has_tables_ref right

  pub has_tables : SelectStatement → Bool
  has_tables (select_statement no_table where_clause link all groupby orderby limit targets) = false
  has_tables
        (select_statement (from_table table) where_clause link all groupby orderby limit targets) =
      has_tables_ref table && has_tables_link link

  pub has_tables_link : UnionLink → Bool
  has_tables_link no_link = true
  has_tables_link (union_link statement) = has_tables statement

-- a plan of the reference, as the field would hold it
abbrev pub kept : Result Tree → Result (Option Tree)
kept m = m >>= λ plan. ok (some plan)

clause-some {ℓ} :
    {A : Type ℓ} (opr : A → LogicalOperator) (a : Option A) (plan : Tree)
    → clause opr a (some plan) ≡ ok (some (optional opr a plan))
unfolding put_above
clause-some opr none plan = refl
clause-some opr (some a) plan = refl

visit_clauses-some :
    (groupby : Option Value) (orderby : Option (List (Expr × SortType))) (limit : Option Value)
    (targets : Option (List Expr)) (plan : Tree)
    → visit_clauses groupby orderby limit targets (some plan)
      ≡ ok (some (with_clauses groupby orderby limit targets plan))
unfolding visit_clauses
visit_clauses-some groupby orderby limit targets plan =
    rw
      (
        clause-some group_by_opr groupby plan,
        clause-some order_by_opr orderby _,
        clause-some limit_opr limit _,
      )
      (clause-some project_opr targets _)

-- What is done to a plan that is there can be done without the field.
kept-step :
    (m : Result Tree) (next : Option Tree → Result (Option Tree)) (step : Tree → Result Tree)
    → ((plan : Tree) → next (some plan) ≡ kept (step plan))
    → (kept m >>= next) ≡ kept (m >>= step)
kept-step (ok plan) next step h = h plan
kept-step (err e) next step h = refl

mutual
  unfolding visit_select has_tables plan_of_select put_above put_above_both

  visit_table_ref-kept :
      (t : TableRef) (plan : Option Tree)
      → has_tables_ref t ≡ true
      → visit_table_ref t plan ≡ kept (plan_of_table t)
  visit_table_ref-kept (table_ref handle alias freq type) plan h =
      rw (visit_handle-kept handle alias plan h) (
        kept-step (plan_of_handle handle alias) (visit_sample freq type) _
          (λ p. clause-some (λ f. sample_opr f type) freq p))

  visit_handle-kept :
      (r : RefHandle) (alias : Alias) (plan : Option Tree)
      → has_tables_handle r ≡ true
      → visit_handle r alias plan ≡ kept (plan_of_handle r alias)
  visit_handle-kept (table_info table_obj) alias plan h = refl
  visit_handle-kept (table_valued_expression func_expr do_unnest) alias plan h =
      alone_kept (table_valued_opr func_expr do_unnest alias)
    where
      alone_kept :
          (m : Result LogicalOperator)
          → (m >>= λ opr. ok (alone opr))
            ≡ kept (m >>= λ opr. ok (tree (logical_operator opr) no_trees))
      alone_kept (ok opr) = refl
      alone_kept (err e) = refl
  visit_handle-kept (nested_select statement) alias plan h = rw (select-kept statement plan h) (
      kept-step (plan_of_select statement)
        (put_above (query_derived_get_opr alias.alias_name none [])) _ (λ p. refl))
  visit_handle-kept (join_node left right predicate join_type) alias plan h =
      rw
        (visit_table_ref-kept left plan
          (&&-eq-true (has_tables_ref left) (has_tables_ref right) h).0)
        (kept-step (plan_of_table left) _ _ (λ p.
          rw
            (visit_table_ref-kept right (some p)
              (&&-eq-true (has_tables_ref left) (has_tables_ref right) h).1)
            (kept-step (plan_of_table right) (put_above_both (join_of join_type predicate) (some p))
              _ (λ q. refl))))

  select-kept :
      (s : SelectStatement) (plan : Option Tree)
      → has_tables s ≡ true
      → visit_select s plan ≡ kept (plan_of_select s)
  select-kept (select_statement no_table where_clause link all groupby orderby limit targets) plan
        h =
      absurd (cc)
  select-kept
        (select_statement (from_table table) where_clause link all groupby orderby limit targets)
        plan h =
      rw
        (visit_table_ref-kept table plan
          (&&-eq-true (has_tables_ref table) (has_tables_link link) h).0)
        (kept-step (plan_of_table table) _ _ (λ p.
          rw
            (
              clause-some filter_opr where_clause p,
              visit_union-kept link all (optional filter_opr where_clause p)
                  (&&-eq-true (has_tables_ref table) (has_tables_link link) h).1,
            )
            (kept-step (plan_of_union link all (optional filter_opr where_clause p))
              (visit_clauses groupby orderby limit targets) _
              (visit_clauses-some groupby orderby limit targets))))

  visit_union-kept :
      (l : UnionLink) (all : Bool) (plan : Tree)
      → has_tables_link l ≡ true
      → visit_union l all (some plan) ≡ kept (plan_of_union l all plan)
  visit_union-kept no_link all plan h = refl
  visit_union-kept (union_link target) all plan h =
      rw (select-kept target (some plan) h) (
        kept-step (plan_of_select target) (put_above_both (union_opr all) (some plan)) _
          (λ q. refl))

-- Where a query, every query nested in it and every query united with one of these has a FROM clause,
-- the query gets the plan that its parts determine, whatever the field held before; where a part
-- raises an exception, so does the query.
pub visit_select-kept :
    (s : SelectStatement) (plan : Option Tree)
    → has_tables s ≡ true
    → visit_select s plan ≡ kept (plan_of_select s)
visit_select-kept = select-kept
