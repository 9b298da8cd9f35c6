-- ===== src/Optimizer/StatementToPlan/Defs.antt =====
-- `StatementToPlanConverter`. Its field `_plan` is the argument and the result of every method; a
-- method that returns early leaves it as it was.
use Prim.Native.Char.{code}
use eva.Expression.Types.{Value, function, Expr, node, Exprs, cons, children}
use eva.Optimizer.OperatorType.{
  logicalinsert, logicaldelete, logicalcreate, logicalrename, logical_drop_object,
  logicalcreatefunction, logicalloaddata, logical_show, logicalcreateindex,
}
use eva.Optimizer.Operators.{
  Alias, Table, JoinType, SortType, LogicalOperator, get_opr, query_derived_get_opr, filter_opr,
  project_opr, group_by_opr, order_by_opr, limit_opr, sample_opr, union_opr, join_opr,
  function_scan_opr, extract_object_opr, explain_opr, statement_opr, logical_operator, Tree, tree,
  no_trees,
}
use eva.Optimizer.RewriteRules.Shared.{node1, node2}
use eva.Parser.Statements.{
  TableRef, table_ref, RefHandle, table_info, table_valued_expression, nested_select, join_node,
  SelectStatement, select_statement, no_table, from_table, UnionLink, no_link, union_link,
  Statement, select_query, create_table_statement, create_function_statement, explain_statement,
  insert_table_statement, rename_table_statement, drop_object_statement, load_data_statement,
  show_statement, create_index_statement, delete_table_statement, other_statement,
}
use eva.Prelude.{
  ℕ, ◌+◌, String, Bool, true, false, ◌&&◌, Option, none, some, List, [], leb, ◌==◌, if◌then◌else◌,
}
use eva.Prelude.Result.{index_error, unsupported, Result, err, ok, ◌>>=◌}

-- `opr.append_child(self._plan); self._plan = opr`; a plan that is `None` would become a child
unfoldable pub put_above : LogicalOperator → Option Tree → Result (Option Tree)
put_above opr none = err unsupported
put_above opr (some plan) = ok (some (node1 opr plan))

-- an operator over two plans
unfoldable pub put_above_both : LogicalOperator → Option Tree → Option Tree → Result (Option Tree)
put_above_both opr (some left_plan) (some right_plan) = ok (some (node2 opr left_plan right_plan))
put_above_both opr left_plan right_plan = err unsupported

-- an operator without children
abbrev pub alone : LogicalOperator → Option Tree
alone opr = some (tree (logical_operator opr) no_trees)

-- an ASCII capital becomes small
abbrev pub lower_code : ℕ → ℕ
lower_code c = if leb b'A' c && leb c b'Z' then c + 32 else c

-- `a.lower() == b.lower()`, for a `b` of ASCII letters
unfoldable pub eq_lower : String → String → Bool
eq_lower String.[] String.[] = true
eq_lower (String.◌∷◌ c s) (String.◌∷◌ d t) =
    (lower_code (code c) == lower_code (code d)) && eq_lower s t
eq_lower s t = false

-- `func_expr.name.lower() == str(FunctionType.EXTRACT_OBJECT).lower()`
unfoldable pub is_extract_object : Expr → Bool
unfolding eq_lower
is_extract_object (node (function name row_id cache) t r es) = eq_lower name "EXTRACT_OBJECT"
is_extract_object e = false

-- `func_expr.children[1]` and `[2]`
unfoldable pub extract_object : Exprs → Bool → Alias → Result LogicalOperator
extract_object (cons a (cons detector (cons tracker es))) do_unnest alias = ok (
    extract_object_opr
      (record { detector = detector; tracker = tracker; alias = alias; do_unnest = do_unnest }))
extract_object es do_unnest alias = err index_error

-- the operator of a table-valued expression
unfoldable pub table_valued_opr : Expr → Bool → Alias → Result LogicalOperator
unfolding is_extract_object extract_object
table_valued_opr func_expr do_unnest alias =
    if is_extract_object func_expr
    then extract_object (children func_expr) do_unnest alias
    else ok
        (function_scan_opr (record { func_expr = func_expr; alias = alias; do_unnest = do_unnest }))

-- the table of `visit_table_ref`
abbrev pub table_get : Table → Alias → LogicalOperator
table_get table_obj alias = get_opr (record {
  video = alias;
  table_obj = table_obj;
  alias = alias.alias_name;
  predicate = none;
  target_list = none;
  sampling_rate = none;
  sampling_type = none;
})

abbrev pub join_of : JoinType → Option Expr → LogicalOperator
join_of join_type predicate = join_opr (record {
  join_type = join_type;
  join_predicate = predicate;
  left_keys = [];
  right_keys = [];
  join_project = [];
})

-- a clause that may be `None` puts its operator above the plan
abbrev pub clause {ℓ} :
    {A : Type ℓ} → (A → LogicalOperator) → Option A → Option Tree → Result (Option Tree)
clause opr none plan = ok plan
clause opr (some a) plan = put_above (opr a) plan

abbrev pub visit_sample : Option ℕ → Option String → Option Tree → Result (Option Tree)
visit_sample freq type = clause (λ f. sample_opr f type) freq

-- the end of `visit_select`, after the union
unfoldable pub visit_clauses :
    Option Value
    → Option (List (Expr × SortType))
    → Option Value
    → Option (List Expr)
    → Option Tree
    → Result (Option Tree)
unfolding put_above
visit_clauses groupby orderby limit targets plan =
    clause group_by_opr groupby plan
    >>= clause order_by_opr orderby
    >>= clause limit_opr limit
    >>= clause project_opr targets

unfoldable mutual
  unfolding put_above put_above_both table_valued_opr visit_clauses

  pub visit_table_ref : TableRef → Option Tree → Result (Option Tree)
  visit_table_ref (table_ref handle alias freq type) plan =
      visit_handle handle alias plan >>= visit_sample freq type

  pub visit_handle : RefHandle → Alias → Option Tree → Result (Option Tree)
  visit_handle (table_info table_obj) alias plan = ok (alone (table_get table_obj alias))
  visit_handle (table_valued_expression func_expr do_unnest) alias plan =
      table_valued_opr func_expr do_unnest alias >>= λ opr. ok (alone opr)
  visit_handle (nested_select statement) alias plan =
      visit_select statement plan >>= put_above (query_derived_get_opr alias.alias_name none [])
  visit_handle (join_node left right predicate join_type) alias plan =
      visit_table_ref left plan >>= λ left_plan. visit_table_ref right left_plan >>= λ right_plan.
      put_above_both (join_of join_type predicate) left_plan right_plan

  pub visit_select : SelectStatement → Option Tree → Result (Option Tree)
  visit_select (select_statement no_table where_clause link all groupby orderby limit targets)
        plan =
      ok plan
  visit_select
        (select_statement (from_table table) where_clause link all groupby orderby limit targets)
        plan =
      visit_table_ref table plan >>= λ tables. clause filter_opr where_clause tables >>= λ filtered.
      visit_union link all filtered >>= visit_clauses groupby orderby limit targets

  pub visit_union : UnionLink → Bool → Option Tree → Result (Option Tree)
  visit_union no_link all plan = ok plan
  visit_union (union_link target) all left_plan = visit_select target left_plan >>= λ right_plan.
      put_above_both (union_opr all) left_plan right_plan

-- the query of a CREATE statement becomes its child
unfoldable pub visit_query : LogicalOperator → UnionLink → Option Tree → Result (Option Tree)
unfolding visit_select
visit_query opr no_link plan = ok (alone opr)
visit_query opr (union_link query) plan = visit_select query plan >>= put_above opr

unfoldable pub visit : Statement → Option Tree → Result (Option Tree)
unfolding visit_query
visit (select_query statement) plan = visit_select statement plan
visit (create_table_statement n query) plan = visit_query (statement_opr logicalcreate n) query plan
visit (create_function_statement n query) plan =
    visit_query (statement_opr logicalcreatefunction n) query plan
visit (explain_statement statement) plan = visit statement plan >>= put_above explain_opr
visit (insert_table_statement n) plan = ok (alone (statement_opr logicalinsert n))
visit (rename_table_statement n) plan = ok (alone (statement_opr logicalrename n))
visit (drop_object_statement n) plan = ok (alone (statement_opr logical_drop_object n))
visit (load_data_statement n) plan = ok (alone (statement_opr logicalloaddata n))
visit (show_statement n) plan = ok (alone (statement_opr logical_show n))
visit (create_index_statement n) plan = ok (alone (statement_opr logicalcreateindex n))
visit (delete_table_statement n) plan = ok (alone (statement_opr logicaldelete n))
visit (other_statement n) plan = ok plan
