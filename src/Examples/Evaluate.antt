-- ===== src/Examples/Evaluate.antt =====
-- The theorem on conditions on a batch, at `id > 3 AND (id <= 10 OR 20 = id)` on four rows.
use eva.Examples.Ranges.{id_predicate}
use eva.Expression.Evaluate.Defs.{BoolFrame, fresh, evaluate}
use eva.Expression.Evaluate.Pointwise.{is_condition, evaluate-by_rows}
use eva.Expression.Holds.{holds}
use eva.Expression.Ranges.Comparisons.{integer_operation}
use eva.Expression.Types.{integer, Expr}
use eva.Expression.Values.{value_of, truth}
use eva.Prelude.{◌≡◌, refl, Bool, true, false, List, [], ◌∷◌, map}
use eva.Prelude.Int.{ℤ, pos}
use eva.Prelude.Result.{Result, ok}

abbrev truth_at : Expr → ℤ → Bool
truth_at e x = truth (value_of integer_operation (λ col. integer x) e)

abbrev by_rows : Expr → List ℤ → Result BoolFrame
by_rows e rows = ok (fresh (map (truth_at e) rows))

evaluate-by_rows_example :
    evaluate by_rows id_predicate (pos 2 ∷ pos 7 ∷ pos 15 ∷ pos 20 ∷ [])
    ≡ ok (fresh (false ∷ true ∷ false ∷ true ∷ []))
unfolding holds value_of
evaluate-by_rows_example =
    evaluate-by_rows by_rows truth_at id_predicate (pos 2 ∷ pos 7 ∷ pos 15 ∷ pos 20 ∷ [])
      (λ e rows. refl) (unfold is_condition in refl)
