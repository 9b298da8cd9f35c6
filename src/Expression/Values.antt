-- ===== src/Expression/Values.antt =====
-- The value of an expression on one row, as the reference for evaluation: a column is
-- looked up, and what every class with children makes of its children's values is given.
use eva.Expression.Holds.{holds}
use eva.Expression.Types.{
  ExpressionType, boolean, Value, ExpressionClass, Expr, tuple_value_expression,
  constant_value_expression, node, Exprs, nil, cons,
}
use eva.Prelude.{String, Bool, false, List, [], ◌∷◌}

abbrev pub Row : Type 0
Row = String → Value

abbrev pub Operation : Type 0
Operation = ExpressionClass → ExpressionType → List Value → Value

unfoldable mutual
  pub value_of : Operation → Row → Expr → Value
  value_of op row (tuple_value_expression v) = row v.col_alias
  value_of op row (constant_value_expression v) = v
  value_of op row (node c t r es) = op c t (values_of op row es)

  pub values_of : Operation → Row → Exprs → List Value
  values_of op row nil = []
  values_of op row (cons e es) = value_of op row e ∷ values_of op row es

-- a value as the outcome of a condition
abbrev pub truth : Value → Bool
truth (boolean b) = b
truth _ = false

-- whether a condition holds on a row
abbrev pub holds_on : Operation → Row → Expr → Bool
holds_on op row = holds (λ e. truth (value_of op row e))
