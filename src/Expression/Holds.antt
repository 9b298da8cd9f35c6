-- ===== src/Expression/Holds.antt =====
-- The truth of a condition on one row, as the reference that the code is compared with: AND, OR and
-- NOT over atoms, whose truth on the row is given.
use eva.Expression.Types.{
  logical_and, logical_or, logical_not, eq_type, Expr, tuple_value_expression,
  constant_value_expression, node, nil, cons,
}
use eva.Prelude.{Bool, true, not, ◌&&◌, ◌||◌, List, [], ◌∷◌, if◌then◌else◌}

unfoldable pub holds : (Expr → Bool) → Expr → Bool
holds atom (tuple_value_expression v) = atom (tuple_value_expression v)
holds atom (constant_value_expression v) = atom (constant_value_expression v)
holds atom (node c t r nil) = atom (node c t r nil)
holds atom (node c t r (cons a nil)) =
    let p : Bool = holds atom a in
    if eq_type t logical_not then not p else atom (node c t r (cons a nil))
holds atom (node c t r (cons a (cons b es))) =
    let p : Bool = holds atom a in
    let q : Bool = holds atom b in
    if eq_type t logical_and
    then p && q
    else if eq_type t logical_or
    then p || q
    else atom (node c t r (cons a (cons b es)))

-- every condition of the list holds
abbrev pub all_hold : (Expr → Bool) → List Expr → Bool
all_hold atom [] = true
all_hold atom (e ∷ es) = holds atom e && all_hold atom es
