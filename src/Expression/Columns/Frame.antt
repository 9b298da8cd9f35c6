-- ===== src/Expression/Columns/Frame.antt =====
-- `get_columns_in_predicate` finds every column that can matter to a predicate.
use eva.Expression.Columns.{get_columns_in_predicate, columns_of_children}
use eva.Expression.Holds.{holds}
use eva.Expression.Types.{
  ExpressionType, ExpressionReturnType, ExpressionClass, Expr, tuple_value_expression,
  constant_value_expression, node, Exprs, nil, cons,
}
use eva.Expression.Values.{Row, Operation, value_of, values_of, truth, holds_on}
use eva.Prelude.{String, ◌≡◌, refl, ap, ap₂, true, List, [], ◌∷◌, arith, eq_iff}
use eva.Prelude.Texts.{contains, update, contains-update}

-- two rows agree on the columns of a set
abbrev pub Agree : List String → Row → Row → Type 0
Agree cols row row' = (col : String) → contains cols col ≡ true → row col ≡ row' col

contains-columns_of_children :
    (cols : List String) (es : Exprs) (col : String)
    → contains cols col ≡ true
    → contains (columns_of_children cols es) col ≡ true
unfolding get_columns_in_predicate
contains-columns_of_children cols nil col h = h
contains-columns_of_children cols (cons e es) col h =
    contains-columns_of_children (update cols (get_columns_in_predicate e)) es col
      (rw contains-update (rw h))

contains-child :
    (cols : List String) (e : Expr) (es : Exprs) (col : String)
    → contains (get_columns_in_predicate e) col ≡ true
    → contains (columns_of_children (update cols (get_columns_in_predicate e)) es) col ≡ true
contains-child cols e es col h =
    contains-columns_of_children (update cols (get_columns_in_predicate e)) es col
      (rw contains-update (rw h (ground arith)))

module _ (op : Operation) (row row' : Row) where
  mutual
    unfolding value_of get_columns_in_predicate contains

    value_of-Agree :
        (e : Expr)
        → Agree (get_columns_in_predicate e) row row'
        → value_of op row e ≡ value_of op row' e
    value_of-Agree (tuple_value_expression v) h =
        h v.col_alias (ground (arith, eq_iff v.col_alias v.col_alias))
    value_of-Agree (constant_value_expression v) h = refl
    value_of-Agree (node c t r es) h = ap (op c t) (values_of-Agree [] es h)

    values_of-Agree :
        (cols : List String) (es : Exprs)
        → Agree (columns_of_children cols es) row row'
        → values_of op row es ≡ values_of op row' es
    values_of-Agree cols nil h = refl
    values_of-Agree cols (cons e es) h =
        ap₂ ◌∷◌ (value_of-Agree e (λ col k. h col (contains-child cols e es col k)))
          (values_of-Agree (update cols (get_columns_in_predicate e)) es h)

  Agree-left :
      (c : ExpressionClass) (t : ExpressionType) (r : ExpressionReturnType) (a : Expr) (es : Exprs)
      → Agree (get_columns_in_predicate (node c t r (cons a es))) row row'
      → Agree (get_columns_in_predicate a) row row'
  unfolding get_columns_in_predicate
  Agree-left c t r a es h = λ col k. h col (contains-child [] a es col k)

  Agree-right :
      (c : ExpressionClass) (t : ExpressionType) (r : ExpressionReturnType) (a b : Expr)
      (es : Exprs)
      → Agree (get_columns_in_predicate (node c t r (cons a (cons b es)))) row row'
      → Agree (get_columns_in_predicate b) row row'
  unfolding get_columns_in_predicate
  Agree-right c t r a b es h =
      λ col k. h col (contains-child (update [] (get_columns_in_predicate a)) b es col k)

  -- On rows that agree on the columns of a condition, the condition has the same outcome.
  pub holds_on-Agree :
      (e : Expr)
      → Agree (get_columns_in_predicate e) row row'
      → holds_on op row e ≡ holds_on op row' e
  unfolding holds
  holds_on-Agree (tuple_value_expression v) h =
      ap truth (value_of-Agree (tuple_value_expression v) h)
  holds_on-Agree (constant_value_expression v) h =
      ap truth (value_of-Agree (constant_value_expression v) h)
  holds_on-Agree (node c t r nil) h = ap truth (value_of-Agree (node c t r nil) h)
  holds_on-Agree (node c t r (cons a nil)) h =
      rw (holds_on-Agree a (Agree-left c t r a nil h), value_of-Agree (node c t r (cons a nil)) h)
        refl
  holds_on-Agree (node c t r (cons a (cons b es))) h =
      rw
        (
          holds_on-Agree a (Agree-left c t r a (cons b es) h),
          holds_on-Agree b (Agree-right c t r a b es h),
          value_of-Agree (node c t r (cons a (cons b es))) h,
        )
        refl
