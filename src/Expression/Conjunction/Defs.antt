-- ===== src/Expression/Conjunction/Defs.antt =====
-- expression/expression_utils.py: conjunctions as trees and as lists.
use eva.Expression.Types.{
  logical_and, eq_type, Expr, tuple_value_expression, constant_value_expression, node, nil, cons,
  logical_expression,
}
use eva.Prelude.{Option, none, some, List, [], ◌∷◌, ◌++◌, if◌then◌else◌}
use eva.Prelude.Result.{index_error, Result, ok, err, ◌>>=◌}

-- `children[0]` and `children[1]` of an AND
unfoldable pub to_conjunction_list : Expr → Result (List Expr)
to_conjunction_list (tuple_value_expression v) = ok (tuple_value_expression v ∷ [])
to_conjunction_list (constant_value_expression v) = ok (constant_value_expression v ∷ [])
to_conjunction_list (node c t r nil) =
    if eq_type t logical_and then err index_error else ok (node c t r nil ∷ [])
to_conjunction_list (node c t r (cons a nil)) =
    if eq_type t logical_and then err index_error else ok (node c t r (cons a nil) ∷ [])
to_conjunction_list (node c t r (cons a (cons b es))) =
    let both : Result (List Expr) =
      to_conjunction_list a >>= (λ xs. to_conjunction_list b >>= (λ ys. ok (xs ++ ys))) in
    if eq_type t logical_and then both else ok (node c t r (cons a (cons b es)) ∷ [])

-- the loop over `expression_list[1:]`; a list holds expressions or `None`
unfoldable pub join_all : Option Expr → List (Option Expr) → Option Expr
join_all prev_expr [] = prev_expr
join_all prev_expr (none ∷ es) = join_all prev_expr es
join_all prev_expr (some e ∷ es) =
    join_all (some (logical_expression logical_and prev_expr (some e))) es

unfoldable pub conjunction_list_to_expression_tree : List (Option Expr) → Option Expr
unfolding join_all
conjunction_list_to_expression_tree [] = none
conjunction_list_to_expression_tree (e ∷ es) = join_all e es
