-- ===== src/Expression/Ranges/Sound.antt =====
-- The ranges that are extracted from a predicate hold the numbers that satisfy it.
use eva.Expression.Holds.{holds}
use eva.Expression.Ranges.Comparisons.{
  compare_integers, integer_operation, holds_at, within_any-valid_overlaps, within_any-valid_ranges,
  compare_integers-mirror,
}
use eva.Expression.Ranges.Extract.{
  mirror, from_sides, extract_range_list_from_comparison_expr, valid_overlaps, leaf,
  extract_range_list_from_predicate,
}
use eva.Expression.Ranges.Union.{Range, union, within_any, within_any-append, within_any-union}
use eva.Expression.Types.{
  ExpressionType, logical_and, logical_or, eq_type, ExpressionReturnType, integer, ExpressionClass,
  comparison, Expr, tuple_value_expression, constant_value_expression, node, Exprs, nil, cons,
}
use eva.Expression.Values.{value_of, truth}
use eva.Prelude.{
  ◌≡◌, refl, ap₂, ◌∙◌, ◌≢◌, inl, inr, Bool, true, false, ◌&&◌, ◌||◌, List, ◌++◌, arith,
  if◌then◌else◌, Bool-cases,
}
use eva.Prelude.Int.{ℤ, ◌≤ℤ◌, leb_ℤ}
use eva.Prelude.Result.{index_error, Result, err, ok, ◌>>=◌, ok-injective, >>=-eq-ok}

leaf_one :
    (c : ExpressionClass) (t : ExpressionType) (r : ExpressionReturnType) (a : Expr)
    (lower upper : ℤ) (rs : List Range)
    → leaf (node c t r (cons a nil)) lower upper ≢ ok rs
unfolding leaf extract_range_list_from_comparison_expr
leaf_one c t r a lower upper rs = ground arith

module _ (x lower upper : ℤ) (hl : leb_ℤ lower x ≡ true) (hu : leb_ℤ x upper ≡ true) where
  within_any-from_sides :
      (t : ExpressionType) (v : ℤ) (const_first : Bool) (rs : List Range)
      → from_sides t lower upper (integer v, const_first) ≡ ok rs
      → within_any x rs
        ≡ truth (if const_first then compare_integers t v x else compare_integers t x v)
  unfolding from_sides
  within_any-from_sides t v true rs h =
      within_any-valid_ranges x v lower upper (mirror t) rs hl hu h ∙ compare_integers-mirror t x v
  within_any-from_sides t v false rs h = within_any-valid_ranges x v lower upper t rs hl hu h

  -- A number between the bounds lies in the ranges of a comparison exactly when it satisfies it.
  within_any-comparison :
      (t : ExpressionType) (r : ExpressionReturnType) (a b : Expr) (es : Exprs) (rs : List Range)
      → extract_range_list_from_comparison_expr
          (node comparison t r (cons a (cons b es)))
          lower
          upper
        ≡ ok rs
      → within_any x rs
        ≡ truth (
            value_of integer_operation
              (λ col. integer x)
              (node comparison t r (cons a (cons b es))))
  unfolding extract_range_list_from_comparison_expr value_of
  within_any-comparison t r (tuple_value_expression c) (constant_value_expression (integer v)) es rs
        h =
      within_any-from_sides t v false rs h
  within_any-comparison t r (constant_value_expression (integer v)) (tuple_value_expression c) es rs
        h =
      within_any-from_sides t v true rs h
  within_any-comparison t r a b es rs h = ground arith

  within_any-leaf :
      (e : Expr) (rs : List Range)
      → leaf e lower upper ≡ ok rs
      → within_any x rs ≡ truth (value_of integer_operation (λ col. integer x) e)
  unfolding leaf
  within_any-leaf (node comparison t r (cons a (cons b es))) rs h =
      let (ranges, p, q) =
        >>=-eq-ok
          (extract_range_list_from_comparison_expr (node comparison t r (cons a (cons b es))) lower
            upper)
          (λ ranges. ok (union ranges)) h in
      rw (← ok-injective q) (within_any-union x ranges ∙ within_any-comparison t r a b es ranges p)
  within_any-leaf (node comparison t r (cons a nil)) rs h =
      absurd (unfold extract_range_list_from_comparison_expr in cc)
  within_any-leaf e rs h = absurd (unfold extract_range_list_from_comparison_expr in cc)

  combine-or :
      (p q : Bool) (ml mr : Result (List Range)) (rs : List Range)
      → ((ls : List Range) → ml ≡ ok ls → within_any x ls ≡ p)
      → ((ls : List Range) → mr ≡ ok ls → within_any x ls ≡ q)
      → (ml >>= λ ls. mr >>= λ rs. ok (union (ls ++ rs))) ≡ ok rs
      → within_any x rs ≡ (p || q)
  combine-or p q (ok ls) (ok rs) us hp hq h = rw (← ok-injective h) (
      within_any-union x (ls ++ rs)
      ∙ within_any-append x ls rs
      ∙ ap₂ ◌||◌ (hp ls refl) (hq rs refl))
  combine-or p q (ok ls) (err e) us hp hq h = absurd (cc)
  combine-or p q (err e) mr us hp hq h = absurd (cc)

  combine-and :
      (p q : Bool) (ml mr : Result (List Range)) (rs : List Range)
      → ((ls : List Range) → ml ≡ ok ls → within_any x ls ≡ p)
      → ((ls : List Range) → mr ≡ ok ls → within_any x ls ≡ q)
      → (ml >>= λ ls. mr >>= λ rs. ok (union (valid_overlaps ls rs))) ≡ ok rs
      → within_any x rs ≡ (p && q)
  combine-and p q (ok ls) (ok rs) us hp hq h = rw (← ok-injective h) (
      within_any-union x (valid_overlaps ls rs)
      ∙ within_any-valid_overlaps x ls rs
      ∙ ap₂ ◌&&◌ (hp ls refl) (hq rs refl))
  combine-and p q (ok ls) (err e) us hp hq h = absurd (cc)
  combine-and p q (err e) mr us hp hq h = absurd (cc)

  within_any-predicate :
      (e : Expr) (rs : List Range)
      → extract_range_list_from_predicate e lower upper ≡ ok rs
      → within_any x rs ≡ holds_at x e
  unfolding extract_range_list_from_predicate holds
  within_any-predicate (tuple_value_expression v) rs h = absurd (cc)
  within_any-predicate (constant_value_expression v) rs h = absurd (cc)
  within_any-predicate (node c t r nil) rs h =
      elim (Bool-cases (eq_type t logical_and || eq_type t logical_or)) [
        | inl e ↦ absurd (let k : err index_error ≡ ok rs = rw e at h in cc)
        | inr e ↦ within_any-leaf (node c t r nil) rs (rw e at h)
      ]
  within_any-predicate (node c t r (cons a nil)) rs h =
      elim (Bool-cases (eq_type t logical_and || eq_type t logical_or)) [
        | inl e ↦ absurd (no_right (extract_range_list_from_predicate a lower upper) (rw e at h))
        | inr e ↦ absurd (leaf_one c t r a lower upper rs (rw e at h))
      ]
    where
      no_right : (m : Result (List Range)) → (m >>= λ ls. err index_error) ≡ ok rs → ⊥
      no_right (ok ls) k = cc
      no_right (err e) k = cc
  within_any-predicate (node c t r (cons a (cons b es))) rs h =
      elim (Bool-cases (eq_type t logical_and)) [
        | inl e ↦ rw e (
            combine-and (holds_at x a) (holds_at x b)
              (extract_range_list_from_predicate a lower upper)
              (extract_range_list_from_predicate b lower upper) rs (within_any-predicate a)
              (within_any-predicate b) (rw e at h))
        | inr e ↦ elim (Bool-cases (eq_type t logical_or)) [
          | inl k ↦
              rw (e, k)
                (combine-or (holds_at x a) (holds_at x b)
                  (extract_range_list_from_predicate a lower upper)
                  (extract_range_list_from_predicate b lower upper) rs (within_any-predicate a)
                  (within_any-predicate b) (rw (e, k) at h))
          | inr k ↦
              rw (e, k) (within_any-leaf (node c t r (cons a (cons b es))) rs (rw (e, k) at h))
        ]
      ]

-- Where the ranges of a predicate are found, a number between the bounds lies in one of them exactly
-- when the predicate holds of it.
pub within_any-extract_range_list_from_predicate :
    (e : Expr) (lower upper x : ℤ) (rs : List Range)
    → extract_range_list_from_predicate e lower upper ≡ ok rs
    → lower ≤ℤ x
    → x ≤ℤ upper
    → within_any x rs ≡ holds_at x e
within_any-extract_range_list_from_predicate e lower upper x rs h hl hu =
    within_any-predicate x lower upper (ground arith) (ground arith) e rs h
