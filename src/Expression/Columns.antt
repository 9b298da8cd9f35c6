-- ===== src/Expression/Columns.antt =====
-- expression/expression_utils.py: the columns of a predicate, and the tests on them.
pub mod Frame
use eva.Expression.Types.{
  ExpressionClass, comparison, logical, Expr, tuple_value_expression, constant_value_expression,
  node, Exprs, nil, cons,
}
use eva.Prelude.{String, Bool, true, false, ◌&&◌, Option, none, some, List, [], ◌∷◌, str_eq}
use eva.Prelude.Texts.{update}

-- `get_columns_in_predicate`; a set is a list without repetition
unfoldable mutual
  pub get_columns_in_predicate : Expr → List String
  get_columns_in_predicate (tuple_value_expression v) = v.col_alias ∷ []
  get_columns_in_predicate (constant_value_expression v) = []
  get_columns_in_predicate (node c t r es) = columns_of_children [] es

  pub columns_of_children : List String → Exprs → List String
  columns_of_children cols nil = cols
  columns_of_children cols (cons e es) =
      columns_of_children (update cols (get_columns_in_predicate e)) es

unfoldable pub contains_single : List String → Option String → Bool
contains_single (pred_col ∷ []) none = true
contains_single (pred_col ∷ []) (some column) = str_eq pred_col column
contains_single _ _ = false

-- The predicate may be `None`, and so may the column.
unfoldable pub contains_single_column : Option Expr → Option String → Bool
unfolding contains_single
contains_single_column none column = false
contains_single_column (some e) column = contains_single (get_columns_in_predicate e) column

-- the classes of `simple_expressions`, beside columns and constants
is_simple_class : ExpressionClass → Bool
is_simple_class logical = true
is_simple_class comparison = true
is_simple_class _ = false

unfoldable mutual
  unfolding is_simple_class

  pub has_simple_expressions : Expr → Bool
  has_simple_expressions (tuple_value_expression v) = true
  has_simple_expressions (constant_value_expression v) = true
  has_simple_expressions (node c t r es) = simple_children (is_simple_class c) es

  pub simple_children : Bool → Exprs → Bool
  simple_children simple nil = simple
  simple_children simple (cons e es) = simple_children (simple && has_simple_expressions e) es

unfoldable pub is_simple_predicate : Expr → Bool
is_simple_predicate e = has_simple_expressions e && contains_single_column (some e) none
