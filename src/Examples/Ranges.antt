-- ===== src/Examples/Ranges.antt =====
-- The theorems on ranges, at `id > 3 AND (id <= 10 OR 20 = id)`.
use eva.Examples.Conditions.{column, number, compare, both, either}
use eva.Expression.Ranges.Comparisons.{holds_at}
use eva.Expression.Ranges.Extract.{
  extract_range_list_from_comparison_expr, extract_range_list_from_predicate,
}
use eva.Expression.Ranges.Sound.{within_any-extract_range_list_from_predicate}
use eva.Expression.Ranges.Total.{has_ranges, is_ok-extract_range_list_from_predicate}
use eva.Expression.Ranges.Union.{range, overlap, union, within_any}
use eva.Expression.Types.{compare_equal, compare_greater, compare_leq, Expr}
use eva.Prelude.{ℕ, ◌≡◌, refl, true, [], ◌∷◌, arith, leb}
use eva.Prelude.Int.{pos, ◌+ℤ◌, ◌≤ℤ◌}
use eva.Prelude.Result.{is_ok}

abbrev id_column : Expr
id_column = column "t" "t.id"

abbrev pub id_predicate : Expr
id_predicate = both (compare compare_greater id_column (number 3)) (
    either (compare compare_leq id_column (number 10))
      (compare compare_equal (number 20) id_column))

within_any-extract_range_list_from_predicate_example :
    within_any (pos 7) (range (pos 4) (pos 10) ∷ range (pos 20) (pos 20) ∷ [])
    ≡ holds_at (pos 7) id_predicate
unfolding extract_range_list_from_predicate extract_range_list_from_comparison_expr union overlap
    ◌+ℤ◌
within_any-extract_range_list_from_predicate_example =
    within_any-extract_range_list_from_predicate id_predicate (pos 0) (pos 100) (pos 7)
      (range (pos 4) (pos 10) ∷ range (pos 20) (pos 20) ∷ []) refl (arith_le 0 7 refl)
      (arith_le 7 100 refl)
  where
    arith_le : (a b : ℕ) → leb a b ≡ true → pos a ≤ℤ pos b
    arith_le a b h = ground arith

is_ok-extract_range_list_from_predicate_example :
    is_ok (extract_range_list_from_predicate id_predicate (pos 0) (pos 100))
    ≡ has_ranges id_predicate
is_ok-extract_range_list_from_predicate_example =
    is_ok-extract_range_list_from_predicate id_predicate (pos 0) (pos 100)
