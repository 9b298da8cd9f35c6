-- ===== src/Expression/Types.antt =====
-- expression/abstract_expression.py and the expression classes: the tree and its accessors.
use eva.Prelude.{ℕ, String, Bool, Option, none, some, List, [], ◌∷◌, ◌==◌, length}
use eva.Prelude.Int.{ℤ}

pub data ExpressionType : Type 0 where
  invalid constant_value tuple_value : ExpressionType
  compare_equal compare_greater compare_lesser compare_geq compare_leq compare_neq : ExpressionType
  compare_contains compare_is_contained compare_like : ExpressionType
  logical_and logical_or logical_not : ExpressionType
  arithmetic_add arithmetic_subtract arithmetic_multiply arithmetic_divide : ExpressionType
  function_expression : ExpressionType
  aggregation_count aggregation_sum aggregation_min aggregation_max : ExpressionType
  aggregation_avg aggregation_first aggregation_last aggregation_segment : ExpressionType
  case : ExpressionType

-- the value of a member, as `IntEnum` and `auto()` give it
abbrev pub type_value : ExpressionType → ℕ
type_value invalid = 1
type_value constant_value = 2
type_value tuple_value = 3
type_value compare_equal = 4
type_value compare_greater = 5
type_value compare_lesser = 6
type_value compare_geq = 7
type_value compare_leq = 8
type_value compare_neq = 9
type_value compare_contains = 10
type_value compare_is_contained = 11
type_value compare_like = 12
type_value logical_and = 13
type_value logical_or = 14
type_value logical_not = 15
type_value arithmetic_add = 16
type_value arithmetic_subtract = 17
type_value arithmetic_multiply = 18
type_value arithmetic_divide = 19
type_value function_expression = 20
type_value aggregation_count = 21
type_value aggregation_sum = 22
type_value aggregation_min = 23
type_value aggregation_max = 24
type_value aggregation_avg = 25
type_value aggregation_first = 26
type_value aggregation_last = 27
type_value aggregation_segment = 28
type_value case = 29

abbrev pub eq_type : ExpressionType → ExpressionType → Bool
eq_type a b = type_value a == type_value b

pub data ExpressionReturnType : Type 0 where
  invalid boolean integer varchar float : ExpressionReturnType

-- The constants that the modelled code looks into; floats and arrays are `other`, told apart by a
-- number.
pub data Value : Type 0 where
  integer : ℤ → Value
  boolean : Bool → Value
  text : String → Value
  other : ℕ → Value

-- the column that a name is bound to: one of a table, or an output of a function
pub data ColumnObject : Type 0 where
  unbound : ColumnObject
  column_catalog_entry : (table_name name : String) → (row_id : ℕ) → ColumnObject
  function_io_catalog_entry : (function_name name : String) → (row_id : ℕ) → ColumnObject

pub record TupleValue : Type 0 where
  pub name : String
  pub table_alias : String
  pub col_object : ColumnObject
  pub col_alias : String

-- `FunctionExpressionCache`: the key, a tuple of column expressions that may hold `None`, and the
-- path of the store
pub record FunctionExpressionCache : Type 0 where
  pub key : List (Option TupleValue)
  pub store : String

-- What a class adds to `AbstractExpression`. Of a function call: its name, the catalog's row id of
-- the function, and its cache.
pub data ExpressionClass : Type 0 where
  comparison logical arithmetic aggregation case_when : ExpressionClass
  function :
      (name : String) → (row_id : ℕ) → (cache : Option FunctionExpressionCache) → ExpressionClass

-- `AbstractExpression`: the class, `_etype`, `_rtype` and `_children`. A column and a constant have
-- no children, and their `_etype` and `_rtype` are fixed by their constructors.
mutual
  pub data Expr : Type 0 where
    tuple_value_expression : TupleValue → Expr
    constant_value_expression : Value → Expr
    node : ExpressionClass → ExpressionType → ExpressionReturnType → Exprs → Expr

  pub data Exprs : Type 0 where
    nil : Exprs
    cons : Expr → Exprs → Exprs

abbrev pub etype : Expr → ExpressionType
etype (tuple_value_expression v) = tuple_value
etype (constant_value_expression v) = constant_value
etype (node c t r es) = t

abbrev pub children : Expr → Exprs
children (tuple_value_expression v) = nil
children (constant_value_expression v) = nil
children (node c t r es) = es

abbrev pub to_list : Exprs → List Expr
to_list nil = []
to_list (cons e es) = e ∷ to_list es

abbrev pub get_children_count : Expr → ℕ
get_children_count e = length (to_list (children e))

-- `None` operands are left out of the children
abbrev pub operands : Option Expr → Option Expr → Exprs
operands none none = nil
operands none (some r) = cons r nil
operands (some l) none = cons l nil
operands (some l) (some r) = cons l (cons r nil)

abbrev pub comparison_expression : ExpressionType → Option Expr → Option Expr → Expr
comparison_expression t l r = node comparison t boolean (operands l r)

abbrev pub logical_expression : ExpressionType → Option Expr → Option Expr → Expr
logical_expression t l r = node logical t boolean (operands l r)

abbrev pub arithmetic_expression : ExpressionType → Option Expr → Option Expr → Expr
arithmetic_expression t l r = node arithmetic t float (operands l r)
