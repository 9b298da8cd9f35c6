-- ===== src/Expression/Ranges/Extract.antt =====
-- `extract_range_list_from_comparison_expr` and `extract_range_list_from_predicate`. The constants
-- are integers, as the type of the result says; other constants end the extraction.
use eva.Expression.Ranges.Union.{Range, range, overlap, union}
use eva.Expression.Types.{
  ExpressionType, compare_equal, compare_greater, compare_lesser, compare_geq, compare_leq,
  compare_neq, logical_and, logical_or, eq_type, integer, Value, text, comparison, Expr,
  tuple_value_expression, constant_value_expression, node, nil, cons,
}
use eva.Prelude.{Bool, true, false, ◌||◌, none, some, List, [], ◌∷◌, ◌++◌, if◌then◌else◌}
use eva.Prelude.Int.{ℤ, pos, ◌+ℤ◌, ◌-ℤ◌}
use eva.Prelude.Result.{
  Error, index_error, runtime_error, type_error, unsupported, Result, err, ok, ◌>>=◌,
}

-- the constant of the comparison, and whether it stands first
unfoldable pub sides : Expr → Expr → Result (Value × Bool)
sides (tuple_value_expression c) (constant_value_expression v) = ok (v, false)
sides (constant_value_expression v) (tuple_value_expression c) = ok (v, true)
sides left right = err runtime_error

unfoldable pub mirror : ExpressionType → ExpressionType
mirror compare_greater = compare_lesser
mirror compare_lesser = compare_greater
mirror compare_geq = compare_leq
mirror compare_leq = compare_geq
mirror t = t

unfoldable pub valid_ranges : ExpressionType → ℤ → ℤ → ℤ → Result (List Range)
valid_ranges compare_equal v lower upper = ok (range v v ∷ [])
valid_ranges compare_neq v lower upper =
    ok (range lower (v -ℤ pos 1) ∷ range (v +ℤ pos 1) upper ∷ [])
valid_ranges compare_greater v lower upper = ok (range (v +ℤ pos 1) upper ∷ [])
valid_ranges compare_geq v lower upper = ok (range v upper ∷ [])
valid_ranges compare_lesser v lower upper = ok (range lower (v -ℤ pos 1) ∷ [])
valid_ranges compare_leq v lower upper = ok (range lower v ∷ [])
valid_ranges t v lower upper = err runtime_error

-- What ends the extraction at a constant that is no integer: a text has no `val - 1` and no `val + 1`, and
-- no type but that of a comparison has ranges. The ranges of all other cases are pairs of texts, of floats
-- or of truth values; the type of ranges here does not have them, and `unsupported`, which is no outcome
-- of the source, stands for them.
unfoldable pub other_constant : ExpressionType → Value → Error
other_constant compare_neq (text s) = type_error
other_constant compare_greater (text s) = type_error
other_constant compare_lesser (text s) = type_error
other_constant compare_neq v = unsupported
other_constant compare_greater v = unsupported
other_constant compare_lesser v = unsupported
other_constant compare_equal v = unsupported
other_constant compare_geq v = unsupported
other_constant compare_leq v = unsupported
other_constant t v = runtime_error

unfoldable pub from_sides : ExpressionType → ℤ → ℤ → Value × Bool → Result (List Range)
unfolding mirror valid_ranges other_constant
from_sides t lower upper (integer v, const_first) =
    valid_ranges (if const_first then mirror t else t) v lower upper
from_sides t lower upper (v, const_first) =
    err (other_constant (if const_first then mirror t else t) v)

unfoldable pub extract_range_list_from_comparison_expr : Expr → ℤ → ℤ → Result (List Range)
unfolding sides from_sides
extract_range_list_from_comparison_expr (node comparison t r (cons left (cons right es))) lower
      upper =
    sides left right >>= from_sides t lower upper
extract_range_list_from_comparison_expr (node comparison t r es) lower upper = err index_error
extract_range_list_from_comparison_expr expr lower upper = err runtime_error

-- the inner loop, then the outer one, of the overlaps
unfoldable pub overlaps_with : Range → List Range → List Range
overlaps_with left_range [] = []
overlaps_with left_range (right_range ∷ rs) =
    let rest = overlaps_with left_range rs in
    elim (overlap left_range right_range) [ none ↦ rest | some over ↦ over ∷ rest ]

unfoldable pub valid_overlaps : List Range → List Range → List Range
unfolding overlaps_with
valid_overlaps [] right_ranges = []
valid_overlaps (left_range ∷ ls) right_ranges =
    overlaps_with left_range right_ranges ++ valid_overlaps ls right_ranges

unfoldable pub leaf : Expr → ℤ → ℤ → Result (List Range)
leaf (node comparison t r es) lower upper =
    extract_range_list_from_comparison_expr (node comparison t r es) lower upper >>= λ ranges.
    ok (union ranges)
leaf predicate lower upper = err runtime_error

unfoldable pub extract_range_list_from_predicate : Expr → ℤ → ℤ → Result (List Range)
unfolding leaf valid_overlaps
extract_range_list_from_predicate (tuple_value_expression v) lower upper = err runtime_error
extract_range_list_from_predicate (constant_value_expression v) lower upper = err runtime_error
extract_range_list_from_predicate (node c t r nil) lower upper =
    if eq_type t logical_and || eq_type t logical_or
    then err index_error
    else leaf (node c t r nil) lower upper
extract_range_list_from_predicate (node c t r (cons a nil)) lower upper =
    let left : Result (List Range) = extract_range_list_from_predicate a lower upper in
    if eq_type t logical_and || eq_type t logical_or
    then left >>= (λ left_ranges. err index_error)
    else leaf (node c t r (cons a nil)) lower upper
extract_range_list_from_predicate (node c t r (cons a (cons b es))) lower upper =
    let left : Result (List Range) = extract_range_list_from_predicate a lower upper in
    let right : Result (List Range) = extract_range_list_from_predicate b lower upper in
    if eq_type t logical_and
    then left >>= (λ left_ranges.
      right >>= λ right_ranges. ok (union (valid_overlaps left_ranges right_ranges)))
    else if eq_type t logical_or
    then left
      >>= (λ left_ranges. right >>= λ right_ranges. ok (union (left_ranges ++ right_ranges)))
    else leaf (node c t r (cons a (cons b es))) lower upper
