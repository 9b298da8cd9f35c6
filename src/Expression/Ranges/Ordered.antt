-- ===== src/Expression/Ranges/Ordered.antt =====
-- The ranges of a predicate come out of `union`, and so are in order.
use eva.Expression.Ranges.Extract.{
  extract_range_list_from_comparison_expr, valid_overlaps, leaf, extract_range_list_from_predicate,
}
use eva.Expression.Ranges.Separated.{Separated, union-Separated}
use eva.Expression.Ranges.Union.{Range, union}
use eva.Expression.Types.{
  logical_and, logical_or, eq_type, comparison, Expr, tuple_value_expression,
  constant_value_expression, node, nil, cons,
}
use eva.Prelude.{◌≡◌, ◌≢◌, inl, inr, ◌||◌, List, ◌++◌, Bool-cases}
use eva.Prelude.Int.{ℤ}
use eva.Prelude.Result.{index_error, Result, err, ok, ◌>>=◌, ok-injective}

Separated-ok_union :
    (m : Result (List Range)) (rs : List Range)
    → (m >>= λ ranges. ok (union ranges)) ≡ ok rs
    → Separated rs
Separated-ok_union (ok ranges) rs h = rw (← ok-injective h) (union-Separated ranges)
Separated-ok_union (err e) rs h = absurd (cc)

Separated-combine :
    (f : List Range → List Range → List Range) (ml mr : Result (List Range)) (rs : List Range)
    → (ml >>= λ ls. mr >>= λ rs. ok (union (f ls rs))) ≡ ok rs
    → Separated rs
Separated-combine f (ok ls) (ok us) rs h = rw (← ok-injective h) (union-Separated (f ls us))
Separated-combine f (ok ls) (err e) rs h = absurd (cc)
Separated-combine f (err e) mr rs h = absurd (cc)

Separated-leaf :
    (e : Expr) (lower upper : ℤ) (rs : List Range) → leaf e lower upper ≡ ok rs → Separated rs
unfolding leaf
Separated-leaf (node comparison t r es) lower upper rs h =
    Separated-ok_union
      (extract_range_list_from_comparison_expr (node comparison t r es) lower upper) rs h
Separated-leaf e lower upper rs h = absurd (cc)

no_right : (m : Result (List Range)) (rs : List Range) → (m >>= λ ls. err index_error) ≢ ok rs
no_right (ok ls) rs h = cc
no_right (err e) rs h = cc

-- The ranges that are found for a predicate are in order, and between two of them lies a number.
pub extract_range_list_from_predicate-Separated :
    (e : Expr) (lower upper : ℤ) (rs : List Range)
    → extract_range_list_from_predicate e lower upper ≡ ok rs
    → Separated rs
unfolding extract_range_list_from_predicate
extract_range_list_from_predicate-Separated (tuple_value_expression v) lower upper rs h =
    absurd (cc)
extract_range_list_from_predicate-Separated (constant_value_expression v) lower upper rs h =
    absurd (cc)
extract_range_list_from_predicate-Separated (node c t r nil) lower upper rs h =
    elim (Bool-cases (eq_type t logical_and || eq_type t logical_or)) [
      | inl e ↦ absurd (let j : err index_error ≡ ok rs = rw e at h in cc)
      | inr e ↦ Separated-leaf (node c t r nil) lower upper rs (rw e at h)
    ]
extract_range_list_from_predicate-Separated (node c t r (cons a nil)) lower upper rs h =
    elim (Bool-cases (eq_type t logical_and || eq_type t logical_or)) [
      | inl e ↦ absurd (no_right (extract_range_list_from_predicate a lower upper) rs (rw e at h))
      | inr e ↦ Separated-leaf (node c t r (cons a nil)) lower upper rs (rw e at h)
    ]
extract_range_list_from_predicate-Separated (node c t r (cons a (cons b es))) lower upper rs h =
    let left : Result (List Range) = extract_range_list_from_predicate a lower upper in
    let right : Result (List Range) = extract_range_list_from_predicate b lower upper in
    elim (Bool-cases (eq_type t logical_and)) [
      | inl e ↦ Separated-combine valid_overlaps left right rs (rw e at h)
      | inr e ↦ elim (Bool-cases (eq_type t logical_or)) [
        | inl j ↦ Separated-combine ◌++◌ left right rs (rw (e, j) at h)
        | inr j ↦ Separated-leaf (node c t r (cons a (cons b es))) lower upper rs (rw (e, j) at h)
      ]
    ]
