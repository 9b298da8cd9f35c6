-- ===== src/Parser/Statements.antt =====
-- parser/table_ref.py, parser/select_statement.py and the other statement classes, after binding. Of
-- the statements without a query there is a number that tells two contents apart.
use eva.Expression.Types.{Value, Expr}
use eva.Optimizer.Operators.{Alias, Table, JoinType, SortType}
use eva.Prelude.{ℕ, String, Bool, Option, List}

mutual
  -- `TableRef`: what it refers to, its alias, and how it is sampled
  pub data TableRef : Type 0 where
    table_ref :
        RefHandle
        → (alias : Alias) → (sample_freq : Option ℕ) → (sample_type : Option String) → TableRef

  -- `TableInfo` by its `table_obj`, `TableValuedExpression`, `SelectStatement` and `JoinNode`
  pub data RefHandle : Type 0 where
    table_info : (table_obj : Table) → RefHandle
    table_valued_expression : (func_expr : Expr) → (do_unnest : Bool) → RefHandle
    nested_select : SelectStatement → RefHandle
    join_node : (left right : TableRef) → (predicate : Option Expr) → JoinType → RefHandle

  pub data SelectStatement : Type 0 where
    select_statement :
        FromTable
        → (where_clause : Option Expr) → UnionLink
        → (union_all : Bool) → (groupby_clause : Option Value)
        → (orderby_list : Option (List (Expr × SortType))) → (limit_count : Option Value)
        → (target_list : Option (List Expr)) → SelectStatement

  -- `_from_table`, which may be `None`
  pub data FromTable : Type 0 where
    no_table : FromTable
    from_table : TableRef → FromTable

  -- `_union_link`, or another query that may be `None`
  pub data UnionLink : Type 0 where
    no_link : UnionLink
    union_link : SelectStatement → UnionLink

pub data Statement : Type 0 where
  select_query : SelectStatement → Statement
  create_table_statement create_function_statement :
      (contents : ℕ) → (query : UnionLink) → Statement
  explain_statement : Statement → Statement
  insert_table_statement rename_table_statement drop_object_statement : (contents : ℕ) → Statement
  load_data_statement show_statement create_index_statement : (contents : ℕ) → Statement
  delete_table_statement : (contents : ℕ) → Statement
  -- USE and CREATE DATABASE, which no visit of the converter is for
  other_statement : (contents : ℕ) → Statement
