-- ===== src/Readers/DecordReader/InBounds.antt =====
-- The ranges of a predicate lie between the bounds, where its constants do.
use eva.Expression.Ranges.Extract.{
  mirror, valid_ranges, from_sides, extract_range_list_from_comparison_expr, overlaps_with,
  valid_overlaps, leaf, extract_range_list_from_predicate,
}
use eva.Expression.Ranges.Union.{
  Range, range, overlap, pair_le, insert, sorted, reduce, reduce_all, union,
}
use eva.Expression.Traversal.{keep}
use eva.Expression.Types.{
  ExpressionType, compare_equal, compare_greater, compare_lesser, compare_geq, compare_leq,
  compare_neq, logical_and, logical_or, eq_type, ExpressionReturnType, integer, ExpressionClass,
  comparison, Expr, tuple_value_expression, constant_value_expression, node, Exprs, nil, cons,
}
use eva.Prelude.{
  ◌≡◌, refl, sym, subst, inl, inr, Bool, true, ◌&&◌, ◌||◌, none, some, List, [], ◌∷◌, ◌++◌, arith,
  Bool-cases,
}
use eva.Prelude.Int.{ℤ, pos, ◌+ℤ◌, ◌-ℤ◌, +ℤ_parts, -ℤ_parts, leb_ℤ, max_ℤ, min_ℤ}
use eva.Prelude.Result.{index_error, Result, err, ok, ◌>>=◌, ok-injective, >>=-eq-ok}
use mathlib.Core.List.{reverse, reverse-append}

-- The range ends within the bounds, and is at most empty by one.
abbrev pub in_bounds : ℤ → ℤ → Range → Bool
in_bounds lower upper r =
    leb_ℤ lower r.begin && (leb_ℤ r.end upper && leb_ℤ (r.begin -ℤ pos 1) r.end)

abbrev pub AllInBounds : ℤ → ℤ → List Range → Type 0
AllInBounds lower upper [] = Unit
AllInBounds lower upper (r ∷ rs) = (in_bounds lower upper r ≡ true) × AllInBounds lower upper rs

-- every integer that stands in an expression lies between the bounds
unfoldable mutual
  pub constants_within : ℤ → ℤ → Expr → Bool
  constants_within lower upper (tuple_value_expression c) = true
  constants_within lower upper (constant_value_expression (integer v)) =
      leb_ℤ lower v && leb_ℤ v upper
  constants_within lower upper (constant_value_expression v) = true
  constants_within lower upper (node c t r es) = all_constants_within lower upper es

  pub all_constants_within : ℤ → ℤ → Exprs → Bool
  all_constants_within lower upper nil = true
  all_constants_within lower upper (cons e es) =
      constants_within lower upper e && all_constants_within lower upper es

module _ (lower upper : ℤ) where
  AllInBounds-append :
      (rs ss : List Range)
      → AllInBounds lower upper rs
      → AllInBounds lower upper ss
      → AllInBounds lower upper (rs ++ ss)
  AllInBounds-append [] ss h k = k
  AllInBounds-append (r ∷ rs) ss h k = (h.0, AllInBounds-append rs ss h.1 k)

  AllInBounds-reverse :
      (rs : List Range) → AllInBounds lower upper rs → AllInBounds lower upper (reverse rs)
  AllInBounds-reverse [] h = tt
  AllInBounds-reverse (r ∷ rs) h =
      subst (AllInBounds lower upper) (sym (reverse-append (r ∷ []) rs))
        (AllInBounds-append (reverse rs) (r ∷ []) (AllInBounds-reverse rs h.1) (h.0, tt))

  AllInBounds-insert :
      (r : Range) (rs : List Range)
      → in_bounds lower upper r ≡ true
      → AllInBounds lower upper rs
      → AllInBounds lower upper (insert r rs)
  unfolding insert
  AllInBounds-insert r [] h k = (h, tt)
  AllInBounds-insert r (s ∷ rs) h k = elim (Bool-cases (pair_le r s)) [
    | inl e ↦ rw e (h, k)
    | inr e ↦ rw e (k.0, AllInBounds-insert r rs h k.1)
  ]

  AllInBounds-sorted :
      (rs : List Range) → AllInBounds lower upper rs → AllInBounds lower upper (sorted rs)
  unfolding sorted
  AllInBounds-sorted [] h = tt
  AllInBounds-sorted (r ∷ rs) h = AllInBounds-insert r (sorted rs) h.0 (AllInBounds-sorted rs h.1)

  in_bounds_joined :
      (last r : Range)
      → in_bounds lower upper last ≡ true
      → in_bounds lower upper r ≡ true
      → in_bounds lower upper (range last.begin (max_ℤ last.end r.end)) ≡ true
  in_bounds_joined last r h k =
      ground (arith, -ℤ_parts last.begin (pos 1), -ℤ_parts r.begin (pos 1))

  AllInBounds-reduce :
      (reduced : List Range) (r : Range)
      → AllInBounds lower upper reduced
      → in_bounds lower upper r ≡ true
      → AllInBounds lower upper (reduce reduced r)
  unfolding reduce
  AllInBounds-reduce [] r h k = (k, tt)
  AllInBounds-reduce (last ∷ reduced) r h k =
      elim (Bool-cases (leb_ℤ (r.begin -ℤ pos 1) last.end)) [
        | inl e ↦ rw e (in_bounds_joined last r h.0 k, h.1)
        | inr e ↦ rw e (k, h)
      ]

  AllInBounds-reduce_all :
      (reduced rs : List Range)
      → AllInBounds lower upper reduced
      → AllInBounds lower upper rs
      → AllInBounds lower upper (reduce_all reduced rs)
  unfolding reduce_all
  AllInBounds-reduce_all reduced [] h k = h
  AllInBounds-reduce_all reduced (r ∷ rs) h k =
      AllInBounds-reduce_all (reduce reduced r) rs (AllInBounds-reduce reduced r h k.0) k.1

  AllInBounds-union :
      (rs : List Range) → AllInBounds lower upper rs → AllInBounds lower upper (union rs)
  unfolding union
  AllInBounds-union rs h =
      AllInBounds-reverse (reduce_all [] (sorted rs))
        (AllInBounds-reduce_all [] (sorted rs) tt (AllInBounds-sorted rs h))

  in_bounds-overlap :
      (l r : Range) (rest : List Range)
      → in_bounds lower upper l ≡ true
      → in_bounds lower upper r ≡ true
      → AllInBounds lower upper rest
      → AllInBounds lower upper (elim (overlap l r) [ none ↦ rest | some over ↦ over ∷ rest ])
  unfolding overlap
  in_bounds-overlap l r rest h k m =
      elim (Bool-cases (leb_ℤ (max_ℤ l.begin r.begin) (min_ℤ l.end r.end))) [
        | inl e ↦ rw e (ground (arith, -ℤ_parts (max_ℤ l.begin r.begin) (pos 1)), m)
        | inr e ↦ rw e m
      ]

  AllInBounds-overlaps_with :
      (l : Range) (rs : List Range)
      → in_bounds lower upper l ≡ true
      → AllInBounds lower upper rs
      → AllInBounds lower upper (overlaps_with l rs)
  unfolding overlaps_with
  AllInBounds-overlaps_with l [] h k = tt
  AllInBounds-overlaps_with l (r ∷ rs) h k =
      in_bounds-overlap l r (overlaps_with l rs) h k.0 (AllInBounds-overlaps_with l rs h k.1)

  AllInBounds-valid_overlaps :
      (ls rs : List Range)
      → AllInBounds lower upper ls
      → AllInBounds lower upper rs
      → AllInBounds lower upper (valid_overlaps ls rs)
  unfolding valid_overlaps
  AllInBounds-valid_overlaps [] rs h k = tt
  AllInBounds-valid_overlaps (l ∷ ls) rs h k =
      AllInBounds-append (overlaps_with l rs) (valid_overlaps ls rs)
        (AllInBounds-overlaps_with l rs h.0 k) (AllInBounds-valid_overlaps ls rs h.1 k)

  AllInBounds-valid_ranges :
      (t : ExpressionType) (v : ℤ) (rs : List Range)
      → leb_ℤ lower v ≡ true
      → leb_ℤ v upper ≡ true
      → valid_ranges t v lower upper ≡ ok rs
      → AllInBounds lower upper rs
  unfolding valid_ranges
  AllInBounds-valid_ranges compare_equal v rs hl hu h =
      rw (← ok-injective h)
        (ground (arith, -ℤ_parts v (pos 1), +ℤ_parts v (pos 1), -ℤ_parts v (pos 1)), tt)
  AllInBounds-valid_ranges compare_greater v rs hl hu h =
      rw (← ok-injective h)
        (ground (arith, -ℤ_parts v (pos 1), +ℤ_parts v (pos 1), -ℤ_parts (v +ℤ pos 1) (pos 1)), tt)
  AllInBounds-valid_ranges compare_lesser v rs hl hu h =
      rw (← ok-injective h)
        (ground (arith, -ℤ_parts v (pos 1), +ℤ_parts v (pos 1), -ℤ_parts lower (pos 1)), tt)
  AllInBounds-valid_ranges compare_geq v rs hl hu h =
      rw (← ok-injective h)
        (ground (arith, -ℤ_parts v (pos 1), +ℤ_parts v (pos 1), -ℤ_parts v (pos 1)), tt)
  AllInBounds-valid_ranges compare_leq v rs hl hu h =
      rw (← ok-injective h)
        (ground (arith, -ℤ_parts v (pos 1), +ℤ_parts v (pos 1), -ℤ_parts lower (pos 1)), tt)
  AllInBounds-valid_ranges compare_neq v rs hl hu h = rw (← ok-injective h) (
    ground (arith, -ℤ_parts v (pos 1), +ℤ_parts v (pos 1), -ℤ_parts lower (pos 1)),
    (ground (arith, -ℤ_parts v (pos 1), +ℤ_parts v (pos 1), -ℤ_parts (v +ℤ pos 1) (pos 1)), tt),
  )
  AllInBounds-valid_ranges t v rs hl hu h = absurd (cc)

  AllInBounds-comparison :
      (t : ExpressionType) (r : ExpressionReturnType) (a b : Expr) (es : Exprs) (rs : List Range)
      → constants_within lower upper a ≡ true
      → constants_within lower upper b ≡ true
      → extract_range_list_from_comparison_expr
          (node comparison t r (cons a (cons b es)))
          lower
          upper
        ≡ ok rs
      → AllInBounds lower upper rs
  unfolding extract_range_list_from_comparison_expr constants_within from_sides
  AllInBounds-comparison t r (tuple_value_expression c) (constant_value_expression (integer v)) es
        rs ha hb h =
      AllInBounds-valid_ranges t v rs (ground arith) (ground arith) h
  AllInBounds-comparison t r (constant_value_expression (integer v)) (tuple_value_expression c) es
        rs ha hb h =
      AllInBounds-valid_ranges (mirror t) v rs (ground arith) (ground arith) h
  AllInBounds-comparison t r a b es rs ha hb h = ground arith

  AllInBounds-leaf :
      (c : ExpressionClass) (t : ExpressionType) (r : ExpressionReturnType) (es : Exprs)
      (rs : List Range)
      → all_constants_within lower upper es ≡ true
      → leaf (node c t r es) lower upper ≡ ok rs
      → AllInBounds lower upper rs
  unfolding leaf constants_within
  AllInBounds-leaf comparison t r (cons a (cons b es)) rs k h =
      let (ranges, p, q) =
        >>=-eq-ok
          (extract_range_list_from_comparison_expr (node comparison t r (cons a (cons b es))) lower
            upper)
          (λ ranges. ok (union ranges)) h in
      rw (← ok-injective q) (
        AllInBounds-union ranges
          (AllInBounds-comparison t r a b es ranges (ground arith) (ground arith) p))
  AllInBounds-leaf comparison t r (cons a nil) rs k h =
      absurd (unfold extract_range_list_from_comparison_expr in cc)
  AllInBounds-leaf c t r es rs k h = absurd (unfold extract_range_list_from_comparison_expr in cc)

  AllInBounds-combine :
      (f : List Range → List Range → List Range) (ml mr : Result (List Range)) (rs : List Range)
      → ((ls rs : List Range)
          → AllInBounds lower upper ls
          → AllInBounds lower upper rs
          → AllInBounds lower upper (f ls rs))
      → ((ls : List Range) → ml ≡ ok ls → AllInBounds lower upper ls)
      → ((ls : List Range) → mr ≡ ok ls → AllInBounds lower upper ls)
      → (ml >>= λ ls. mr >>= λ rs. ok (union (f ls rs))) ≡ ok rs
      → AllInBounds lower upper rs
  AllInBounds-combine f (ok ls) (ok us) rs keep hl hr h =
      rw (← ok-injective h) (AllInBounds-union (f ls us) (keep ls us (hl ls refl) (hr us refl)))
  AllInBounds-combine f (ok ls) (err e) rs keep hl hr h = absurd (cc)
  AllInBounds-combine f (err e) mr rs keep hl hr h = absurd (cc)

  -- Where the constants of a predicate lie between the bounds, its ranges do.
  pub AllInBounds-extract_range_list_from_predicate :
      (e : Expr) (rs : List Range)
      → constants_within lower upper e ≡ true
      → extract_range_list_from_predicate e lower upper ≡ ok rs
      → AllInBounds lower upper rs
  unfolding extract_range_list_from_predicate constants_within
  AllInBounds-extract_range_list_from_predicate (tuple_value_expression v) rs k h = absurd (cc)
  AllInBounds-extract_range_list_from_predicate (constant_value_expression v) rs k h = absurd (cc)
  AllInBounds-extract_range_list_from_predicate (node c t r nil) rs k h =
      elim (Bool-cases (eq_type t logical_and || eq_type t logical_or)) [
        | inl e ↦ absurd (let j : err index_error ≡ ok rs = rw e at h in cc)
        | inr e ↦ AllInBounds-leaf c t r nil rs k (rw e at h)
      ]
  AllInBounds-extract_range_list_from_predicate (node c t r (cons a nil)) rs k h =
      elim (Bool-cases (eq_type t logical_and || eq_type t logical_or)) [
        | inl e ↦ absurd (no_right (extract_range_list_from_predicate a lower upper) (rw e at h))
        | inr e ↦ AllInBounds-leaf c t r (cons a nil) rs k (rw e at h)
      ]
    where
      no_right : (m : Result (List Range)) → (m >>= λ ls. err index_error) ≡ ok rs → ⊥
      no_right (ok ls) j = cc
      no_right (err e) j = cc
  AllInBounds-extract_range_list_from_predicate (node c t r (cons a (cons b es))) rs k h =
      let left : (ls : List Range)
          → extract_range_list_from_predicate a lower upper ≡ ok ls
          → AllInBounds lower upper ls =
        λ ls. AllInBounds-extract_range_list_from_predicate a ls (ground arith) in
      let right : (ls : List Range)
          → extract_range_list_from_predicate b lower upper ≡ ok ls
          → AllInBounds lower upper ls =
        λ ls. AllInBounds-extract_range_list_from_predicate b ls (ground arith) in
      elim (Bool-cases (eq_type t logical_and)) [
        | inl e ↦
            AllInBounds-combine valid_overlaps (extract_range_list_from_predicate a lower upper)
              (extract_range_list_from_predicate b lower upper) rs AllInBounds-valid_overlaps left
              right (rw e at h)
        | inr e ↦ elim (Bool-cases (eq_type t logical_or)) [
          | inl j ↦
              AllInBounds-combine ◌++◌ (extract_range_list_from_predicate a lower upper)
                (extract_range_list_from_predicate b lower upper) rs AllInBounds-append left right
                (rw (e, j) at h)
          | inr j ↦ AllInBounds-leaf c t r (cons a (cons b es)) rs k (rw (e, j) at h)
        ]
      ]
