-- ===== src/Optimizer/Operators.antt =====
-- optimizer/operators.py and plan_nodes/: what a group expression holds. The operators of queries
-- have the fields of their classes; of the statements that the optimizer passes on whole (CREATE,
-- INSERT, SHOW and the like) there are the type and a number that tells two contents apart.
use eva.Expression.Types.{Value, TupleValue, Expr}
use eva.Optimizer.OperatorType.{
  OperatorType, opr_dummy, logicalexchange, logicalget, logicalfilter, logicalproject,
  logicalqueryderivedget, logicalunion, logicalgroupby, logicalorderby, logicallimit, logicalsample,
  logicaljoin, logicalfunctionscan, logicalexplain, logical_apply_and_merge, logical_extract_object,
  logical_vector_index_scan, logicaldelimiter, operator_value, eq_operator_type,
}
use eva.Prelude.{ℕ, String, Bool, false, Option, List, ltb}

pub record Alias : Type 0 where
  pub alias_name : String
  pub col_names : List String

pub data TableType : Type 0 where
  structured_data video_data image_data document_data pdf_data : TableType
  system_structured_data native_data : TableType

pub record Table : Type 0 where
  pub table_name : String
  pub table_type : TableType

pub data JoinType : Type 0 where
  lateral_join inner_join : JoinType

pub data SortType : Type 0 where
  asc desc : SortType

-- the fields of `LogicalGet`; `video` is the alias of the table reference
pub record Get : Type 0 where
  pub video : Alias
  pub table_obj : Table
  pub alias : String
  pub predicate : Option Expr
  pub target_list : Option (List Expr)
  pub sampling_rate : Option ℕ
  pub sampling_type : Option String

-- the fields of `LogicalJoin`, where `None` keys and a `None` projection are empty lists
pub record Join : Type 0 where
  pub join_type : JoinType
  pub join_predicate : Option Expr
  pub left_keys : List TupleValue
  pub right_keys : List TupleValue
  pub join_project : List Expr

-- `func_expr`, `alias` and `do_unnest`, of a function scan and of an apply-and-merge
pub record Apply : Type 0 where
  pub func_expr : Expr
  pub alias : Alias
  pub do_unnest : Bool

pub record Extract : Type 0 where
  pub detector : Expr
  pub tracker : Expr
  pub alias : Alias
  pub do_unnest : Bool

pub record IndexScan : Type 0 where
  pub index_name : String
  pub vector_store_type : String
  pub limit_count : Value
  pub search_query_expr : Expr

-- a logical operator without its children
pub data LogicalOperator : Type 0 where
  get_opr : Get → LogicalOperator
  query_derived_get_opr :
      (alias : String) → (predicate : Option Expr) → (target_list : List Expr) → LogicalOperator
  filter_opr : (predicate : Expr) → LogicalOperator
  project_opr : (target_list : List Expr) → LogicalOperator
  group_by_opr : (groupby_clause : Value) → LogicalOperator
  order_by_opr : (orderby_list : List (Expr × SortType)) → LogicalOperator
  limit_opr : (limit_count : Value) → LogicalOperator
  sample_opr : (sample_freq : ℕ) → (sample_type : Option String) → LogicalOperator
  union_opr : (all : Bool) → LogicalOperator
  join_opr : Join → LogicalOperator
  function_scan_opr apply_and_merge_opr : Apply → LogicalOperator
  extract_object_opr : Extract → LogicalOperator
  vector_index_scan_opr : IndexScan → LogicalOperator
  exchange_opr explain_opr : LogicalOperator
  statement_opr : (opr_type : OperatorType) → (contents : ℕ) → LogicalOperator

abbrev pub logical_type : LogicalOperator → OperatorType
logical_type (get_opr g) = logicalget
logical_type (query_derived_get_opr a p t) = logicalqueryderivedget
logical_type (filter_opr p) = logicalfilter
logical_type (project_opr t) = logicalproject
logical_type (group_by_opr g) = logicalgroupby
logical_type (order_by_opr o) = logicalorderby
logical_type (limit_opr l) = logicallimit
logical_type (sample_opr f t) = logicalsample
logical_type (union_opr a) = logicalunion
logical_type (join_opr j) = logicaljoin
logical_type (function_scan_opr a) = logicalfunctionscan
logical_type (apply_and_merge_opr a) = logical_apply_and_merge
logical_type (extract_object_opr e) = logical_extract_object
logical_type (vector_index_scan_opr v) = logical_vector_index_scan
logical_type exchange_opr = logicalexchange
logical_type explain_opr = logicalexplain
logical_type (statement_opr t n) = t

-- A plan node without its children. Of the statements that are passed on whole there are the class of
-- their plan and the number that tells two contents apart. The memory size of a batch, which is the
-- configuration's, and the fields of a storage plan that keep their defaults are left out.
pub data PhysicalPlan : Type 0 where
  apply_and_merge_plan : Apply → PhysicalPlan
  seq_scan_plan :
      (predicate : Option Expr) → (columns : Option (List Expr)) → (alias : String) → PhysicalPlan
  storage_plan :
      (table : Table)
      → (video : Alias) → (predicate : Option Expr) → (sampling_rate : Option ℕ)
      → (sampling_type : Option String) → PhysicalPlan
  predicate_plan : (predicate : Expr) → PhysicalPlan
  project_plan : (target_list : List Expr) → PhysicalPlan
  union_plan : (all : Bool) → PhysicalPlan
  group_by_plan : (groupby_clause : Value) → PhysicalPlan
  order_by_plan : (orderby_list : List (Expr × SortType)) → PhysicalPlan
  limit_plan : (limit_expression : Value) → PhysicalPlan
  function_scan_plan : (func_expr : Expr) → (do_unnest : Bool) → PhysicalPlan
  vector_index_scan_plan : IndexScan → PhysicalPlan
  explain_plan : PhysicalPlan
  nested_loop_join_plan : (join_type : JoinType) → (join_predicate : Option Expr) → PhysicalPlan
  lateral_join_plan : (join_predicate : Option Expr) → (join_project : List Expr) → PhysicalPlan
  hash_join_build_plan : (join_type : JoinType) → (build_keys : List TupleValue) → PhysicalPlan
  hash_join_probe_plan :
      (join_type : JoinType)
      → (probe_keys : List TupleValue) → (join_predicate : Option Expr) → (join_project : List Expr)
      → PhysicalPlan
  exchange_plan : (inner_plan : PhysicalPlan) → (parallelism : ℕ) → PhysicalPlan
  other_plan : (plan_type : String) → (contents : ℕ) → PhysicalPlan

-- A group id; `none` is `UNDEFINED_GROUP_ID`.
abbrev pub GroupId : Type 0
GroupId = Option ℕ

-- what a node of a tree holds; a dummy stands for a group, and shows the operator that was matched
pub data Operator : Type 0 where
  logical_operator : LogicalOperator → Operator
  physical_plan : PhysicalPlan → Operator
  dummy : GroupId → Operator → Operator

-- `Operator.is_logical` and `AbstractPlan.is_logical`
unfoldable pub is_logical : Operator → Bool
is_logical (logical_operator l) =
    ltb (operator_value (logical_type l)) (operator_value logicaldelimiter)
is_logical (physical_plan p) = false
is_logical (dummy g o) = ltb (operator_value opr_dummy) (operator_value logicaldelimiter)

-- The type that a pattern is compared with; a plan's type is of another enumeration, and equals none.
unfoldable pub has_type : OperatorType → Operator → Bool
has_type t (logical_operator l) = eq_operator_type (logical_type l) t
has_type t (physical_plan p) = false
has_type t (dummy g o) = eq_operator_type opr_dummy t

-- a tree of operators
mutual
  pub data Tree : Type 0 where
    tree : Operator → Trees → Tree

  pub data Trees : Type 0 where
    no_trees : Trees
    more_trees : Tree → Trees → Trees
