-- ===== src/Expression/Equality.antt =====
-- `__eq__` of the expression classes. A function is told apart by its name, the catalog's row id and its
-- cache; its outputs and its alias follow from these.
use eva.Expression.Types.{
  ExpressionType, eq_type, boolean, integer, Value, text, other, ColumnObject, unbound,
  column_catalog_entry, function_io_catalog_entry, TupleValue, FunctionExpressionCache,
  ExpressionClass, comparison, logical, arithmetic, aggregation, case_when, function, Expr,
  tuple_value_expression, constant_value_expression, node, Exprs, nil, cons,
}
use eva.Prelude.{
  String, ◌≡◌, refl, Bool, true, false, not, ◌&&◌, Option, none, some, List, [], ◌∷◌, arith, str_eq,
  eq_iff, ◌==◌,
}
use eva.Prelude.Int.{eqb_ℤ}

abbrev pub eq_bool : Bool → Bool → Bool
eq_bool true b = b
eq_bool false b = not b

abbrev pub eq_value : Value → Value → Bool
eq_value (integer a) (integer b) = eqb_ℤ a b
eq_value (boolean a) (boolean b) = eq_bool a b
eq_value (text a) (text b) = str_eq a b
eq_value (other a) (other b) = a == b
eq_value a b = false

abbrev pub eq_column_object : ColumnObject → ColumnObject → Bool
eq_column_object unbound unbound = true
eq_column_object (column_catalog_entry t n r) (column_catalog_entry u m s) =
    str_eq t u && str_eq n m && r == s
eq_column_object (function_io_catalog_entry t n r) (function_io_catalog_entry u m s) =
    str_eq t u && str_eq n m && r == s
eq_column_object a b = false

abbrev pub eq_tuple_value : TupleValue → TupleValue → Bool
eq_tuple_value v w =
    str_eq v.table_alias w.table_alias
    && str_eq v.name w.name
    && str_eq v.col_alias w.col_alias
    && eq_column_object v.col_object w.col_object

abbrev pub eq_keys : List (Option TupleValue) → List (Option TupleValue) → Bool
eq_keys [] [] = true
eq_keys (none ∷ ks) (none ∷ ls) = eq_keys ks ls
eq_keys (some v ∷ ks) (some w ∷ ls) = eq_tuple_value v w && eq_keys ks ls
eq_keys ks ls = false

abbrev pub eq_cache : Option FunctionExpressionCache → Option FunctionExpressionCache → Bool
eq_cache none none = true
eq_cache (some c) (some d) = eq_keys c.key d.key && str_eq c.store d.store
eq_cache c d = false

-- the classes of two nodes with their types
abbrev pub eq_class : ExpressionClass → ExpressionType → ExpressionClass → ExpressionType → Bool
eq_class comparison t comparison u = eq_type t u
eq_class logical t logical u = eq_type t u
eq_class arithmetic t arithmetic u = eq_type t u
eq_class aggregation t aggregation u = eq_type t u
eq_class case_when t case_when u = true
eq_class (function n r c) t (function m s d) u = str_eq n m && r == s && eq_cache c d
eq_class c t d u = false

unfoldable mutual
  pub eq_expr : Expr → Expr → Bool
  eq_expr (tuple_value_expression v) (tuple_value_expression w) = eq_tuple_value v w
  eq_expr (constant_value_expression v) (constant_value_expression w) = eq_value v w
  eq_expr (node c t r es) (node d u s fs) = eq_children es fs && eq_class c t d u
  eq_expr e f = false

  pub eq_children : Exprs → Exprs → Bool
  eq_children nil nil = true
  eq_children (cons e es) (cons f fs) = eq_expr e f && eq_children es fs
  eq_children es fs = false

str_refl : (a : String) → str_eq a a ≡ true
str_refl a = ground (arith, eq_iff a a)

tuple_refl : (v : TupleValue) → eq_tuple_value v v ≡ true
tuple_refl v =
    rw (str_refl v.table_alias, str_refl v.name, str_refl v.col_alias) (object_refl v.col_object)
  where
    object_refl : (o : ColumnObject) → eq_column_object o o ≡ true
    object_refl unbound = refl
    object_refl (column_catalog_entry t n r) = rw (str_refl t, str_refl n) (ground arith)
    object_refl (function_io_catalog_entry t n r) = rw (str_refl t, str_refl n) (ground arith)

keys_refl : (ks : List (Option TupleValue)) → eq_keys ks ks ≡ true
keys_refl [] = refl
keys_refl (none ∷ ks) = keys_refl ks
keys_refl (some v ∷ ks) = rw (tuple_refl v) (keys_refl ks)

cache_refl : (c : Option FunctionExpressionCache) → eq_cache c c ≡ true
cache_refl none = refl
cache_refl (some c) = rw (keys_refl c.key) (str_refl c.store)

value_refl : (v : Value) → eq_value v v ≡ true
value_refl (integer a) = ground arith
value_refl (boolean true) = refl
value_refl (boolean false) = refl
value_refl (text a) = str_refl a
value_refl (other n) = ground arith

class_refl : (c : ExpressionClass) (t : ExpressionType) → eq_class c t c t ≡ true
class_refl comparison t = ground arith
class_refl logical t = ground arith
class_refl arithmetic t = ground arith
class_refl aggregation t = ground arith
class_refl case_when t = refl
class_refl (function n r c) t = rw (str_refl n, cache_refl c) (ground arith)

mutual
  unfolding eq_expr

  pub eq_expr_refl : (e : Expr) → eq_expr e e ≡ true
  eq_expr_refl (tuple_value_expression v) = tuple_refl v
  eq_expr_refl (constant_value_expression v) = value_refl v
  eq_expr_refl (node c t r es) = rw (children_refl es) (class_refl c t)

  children_refl : (es : Exprs) → eq_children es es ≡ true
  children_refl nil = refl
  children_refl (cons e es) = rw (eq_expr_refl e) (children_refl es)
