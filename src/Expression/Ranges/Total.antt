-- ===== src/Expression/Ranges/Total.antt =====
-- Which predicates have ranges.
use eva.Expression.Ranges.Extract.{
  mirror, valid_ranges, from_sides, extract_range_list_from_comparison_expr, valid_overlaps, leaf,
  extract_range_list_from_predicate,
}
use eva.Expression.Ranges.Union.{Range, union}
use eva.Expression.Types.{
  ExpressionType, compare_equal, compare_greater, logical_and, logical_or, type_value, eq_type,
  ExpressionReturnType, integer, ExpressionClass, comparison, Expr, tuple_value_expression,
  constant_value_expression, node, Exprs, nil, cons,
}
use eva.Prelude.{
  ◌≡◌, refl, ap₂, ◌∙◌, inl, inr, Bool, false, ◌&&◌, ◌||◌, List, ◌++◌, arith, leb, if◌then◌else◌,
  Bool-cases,
}
use eva.Prelude.Int.{ℤ}
use eva.Prelude.Result.{index_error, Result, ok, err, ◌>>=◌, is_ok}

-- a comparison of the column with an integer, on either side
is_range_comparison : ExpressionClass → ExpressionType → Expr → Expr → Bool
is_range_comparison comparison t (tuple_value_expression c)
      (constant_value_expression (integer v)) =
    leb 4 (type_value t) && leb (type_value t) 9
is_range_comparison comparison t (constant_value_expression (integer v))
      (tuple_value_expression c) =
    leb 4 (type_value t) && leb (type_value t) 9
is_range_comparison c t a b = false

-- ANDs and ORs of such comparisons
unfoldable pub has_ranges : Expr → Bool
unfolding is_range_comparison
has_ranges (node c t r (cons a (cons b es))) =
    let both : Bool = has_ranges a && has_ranges b in
    if eq_type t logical_and || eq_type t logical_or then both else is_range_comparison c t a b
has_ranges e = false

is_ok-valid_ranges :
    (t : ExpressionType) (v lower upper : ℤ)
    → is_ok (valid_ranges t v lower upper) ≡ (leb 4 (type_value t) && leb (type_value t) 9)
unfolding valid_ranges
is_ok-valid_ranges compare_equal v lower upper = refl
is_ok-valid_ranges _ v lower upper = refl

mirror_in_range :
    (t : ExpressionType)
    → (leb 4 (type_value (mirror t)) && leb (type_value (mirror t)) 9)
      ≡ (leb 4 (type_value t) && leb (type_value t) 9)
unfolding mirror
mirror_in_range compare_greater = refl
mirror_in_range _ = refl

is_ok-bind_union : (m : Result (List Range)) → is_ok (m >>= λ ranges. ok (union ranges)) ≡ is_ok m
is_ok-bind_union (ok ranges) = refl
is_ok-bind_union (err e) = refl

is_ok-leaf :
    (c : ExpressionClass) (t : ExpressionType) (r : ExpressionReturnType) (a b : Expr) (es : Exprs)
    (lower upper : ℤ)
    → is_ok (leaf (node c t r (cons a (cons b es))) lower upper) ≡ is_range_comparison c t a b
unfolding leaf extract_range_list_from_comparison_expr is_range_comparison from_sides
is_ok-leaf comparison t r (tuple_value_expression c) (constant_value_expression (integer v)) es
      lower upper =
    is_ok-bind_union (valid_ranges t v lower upper) ∙ is_ok-valid_ranges t v lower upper
is_ok-leaf comparison t r (constant_value_expression (integer v)) (tuple_value_expression c) es
      lower upper =
    is_ok-bind_union (valid_ranges (mirror t) v lower upper)
    ∙ is_ok-valid_ranges (mirror t) v lower upper
    ∙ mirror_in_range t
is_ok-leaf c t r a b es lower upper = ground arith

is_ok-combine :
    (ml mr : Result (List Range)) (f : List Range → List Range → List Range)
    → is_ok (ml >>= λ ls. mr >>= λ rs. ok (union (f ls rs))) ≡ (is_ok ml && is_ok mr)
is_ok-combine (ok ls) (ok rs) f = refl
is_ok-combine (ok ls) (err e) f = refl
is_ok-combine (err e) mr f = refl

leaf_nullary :
    (b : Bool) (c : ExpressionClass) (t : ExpressionType) (r : ExpressionReturnType)
    (lower upper : ℤ)
    → is_ok (if b then err index_error else leaf (node c t r nil) lower upper) ≡ false
unfolding leaf extract_range_list_from_comparison_expr
leaf_nullary b c t r lower upper = ground arith

leaf_unary :
    (b : Bool) (m : Result (List Range)) (c : ExpressionClass) (t : ExpressionType)
    (r : ExpressionReturnType) (a : Expr) (lower upper : ℤ)
    → is_ok (
        if b
        then m >>= (λ (ls : List Range). err index_error)
        else leaf (node c t r (cons a nil)) lower upper)
      ≡ false
unfolding leaf extract_range_list_from_comparison_expr
leaf_unary b m c t r a lower upper = ground arith

-- Ranges are found, whatever the bounds, exactly for ANDs and ORs of comparisons `=`, `!=`, `<`, `>`,
-- `<=` and `>=` of a column with an integer. A constant that is no integer is outside the model, and
-- counts as one without ranges.
pub is_ok-extract_range_list_from_predicate :
    (e : Expr) (lower upper : ℤ)
    → is_ok (extract_range_list_from_predicate e lower upper) ≡ has_ranges e
unfolding extract_range_list_from_predicate has_ranges
is_ok-extract_range_list_from_predicate (tuple_value_expression v) lower upper = refl
is_ok-extract_range_list_from_predicate (constant_value_expression v) lower upper = refl
is_ok-extract_range_list_from_predicate (node c t r nil) lower upper =
    leaf_nullary (eq_type t logical_and || eq_type t logical_or) c t r lower upper
is_ok-extract_range_list_from_predicate (node c t r (cons a nil)) lower upper =
    leaf_unary (eq_type t logical_and || eq_type t logical_or)
      (extract_range_list_from_predicate a lower upper) c t r a lower upper
is_ok-extract_range_list_from_predicate (node c t r (cons a (cons b es))) lower upper =
    elim (Bool-cases (eq_type t logical_and)) [
      | inl e ↦ rw e (
          is_ok-combine (extract_range_list_from_predicate a lower upper)
            (extract_range_list_from_predicate b lower upper) valid_overlaps
          ∙ ap₂ ◌&&◌ (is_ok-extract_range_list_from_predicate a lower upper)
              (is_ok-extract_range_list_from_predicate b lower upper))
      | inr e ↦ elim (Bool-cases (eq_type t logical_or)) [
        | inl k ↦
            rw (e, k)
              (is_ok-combine (extract_range_list_from_predicate a lower upper)
                  (extract_range_list_from_predicate b lower upper) ◌++◌
                ∙ ap₂ ◌&&◌ (is_ok-extract_range_list_from_predicate a lower upper)
                    (is_ok-extract_range_list_from_predicate b lower upper))
        | inr k ↦ rw (e, k) (is_ok-leaf c t r a b es lower upper)
      ]
    ]
