-- ===== src/Expression/Ranges/Comparisons.antt =====
-- Comparisons of integers, and the numbers in the ranges of a comparison and in overlaps.
use eva.Expression.Ranges.Extract.{mirror, valid_ranges, overlaps_with, valid_overlaps}
use eva.Expression.Ranges.Union.{Range, overlap, within, within_any, within_any-append}
use eva.Expression.Types.{
  ExpressionType, compare_equal, compare_greater, compare_lesser, compare_geq, compare_leq,
  compare_neq, boolean, integer, Value, other, comparison, Expr,
}
use eva.Expression.Values.{Operation, truth, holds_on}
use eva.Prelude.{
  ◌≡◌, refl, ◌∙◌, Bool, true, not, ◌&&◌, ◌||◌, none, some, List, [], ◌∷◌, arith, and_or, or_and,
}
use eva.Prelude.Int.{ℤ, pos, ◌+ℤ◌, ◌-ℤ◌, ltb_ℤ, +ℤ_parts, -ℤ_parts, leb_ℤ, eqb_ℤ}
use eva.Prelude.Result.{ok, ok-injective}

-- the comparisons of integers
abbrev pub compare_integers : ExpressionType → ℤ → ℤ → Value
compare_integers compare_equal a b = boolean (eqb_ℤ a b)
compare_integers compare_greater a b = boolean (ltb_ℤ b a)
compare_integers compare_lesser a b = boolean (ltb_ℤ a b)
compare_integers compare_geq a b = boolean (leb_ℤ b a)
compare_integers compare_leq a b = boolean (leb_ℤ a b)
compare_integers compare_neq a b = boolean (not (eqb_ℤ a b))
compare_integers t a b = other 0

-- comparisons of two integers; no other operation matters to a predicate that has ranges
abbrev pub integer_operation : Operation
integer_operation comparison t (integer a ∷ integer b ∷ vs) = compare_integers t a b
integer_operation c t vs = other 0

-- the truth of a predicate where the column is `x`
abbrev pub holds_at : ℤ → Expr → Bool
holds_at x = holds_on integer_operation (λ col. integer x)

within-overlap :
    (x : ℤ) (l r : Range) (rest : List Range)
    → within_any x (elim (overlap l r) [ none ↦ rest | some over ↦ over ∷ rest ])
      ≡ ((within x l && within x r) || within_any x rest)
unfolding overlap within_any
within-overlap x l r rest = ground arith

within_any-overlaps_with :
    (x : ℤ) (l : Range) (rs : List Range)
    → within_any x (overlaps_with l rs) ≡ (within x l && within_any x rs)
unfolding overlaps_with within_any
within_any-overlaps_with x l [] = ground arith
within_any-overlaps_with x l (r ∷ rs) =
    within-overlap x l r (overlaps_with l rs)
    ∙ rw (within_any-overlaps_with x l rs) (and_or (within x l) (within x r) (within_any x rs))

-- A number lies in the overlaps exactly when it lies in both lists.
pub within_any-valid_overlaps :
    (x : ℤ) (ls rs : List Range)
    → within_any x (valid_overlaps ls rs) ≡ (within_any x ls && within_any x rs)
unfolding valid_overlaps within_any
within_any-valid_overlaps x [] rs = refl
within_any-valid_overlaps x (l ∷ ls) rs =
    within_any-append x (overlaps_with l rs) (valid_overlaps ls rs)
    ∙ rw (within_any-overlaps_with x l rs, within_any-valid_overlaps x ls rs)
        (or_and (within x l) (within_any x ls) (within_any x rs))

within-before : (x v : ℤ) → leb_ℤ x (v -ℤ pos 1) ≡ ltb_ℤ x v
within-before x v = ground (arith, -ℤ_parts v (pos 1))

within-after : (x v : ℤ) → leb_ℤ (v +ℤ pos 1) x ≡ ltb_ℤ v x
within-after x v = ground (arith, +ℤ_parts v (pos 1))

-- a comparison of the column, first, with a constant
pub within_any-valid_ranges :
    (x v lower upper : ℤ) (t : ExpressionType) (rs : List Range)
    → leb_ℤ lower x ≡ true
    → leb_ℤ x upper ≡ true
    → valid_ranges t v lower upper ≡ ok rs
    → within_any x rs ≡ truth (compare_integers t x v)
unfolding valid_ranges within_any
within_any-valid_ranges x v lower upper compare_equal rs hl hu h =
    rw (← ok-injective h) (ground arith)
within_any-valid_ranges x v lower upper compare_greater rs hl hu h =
    rw (← ok-injective h) (ground (arith, within-after x v))
within_any-valid_ranges x v lower upper compare_lesser rs hl hu h =
    rw (← ok-injective h) (ground (arith, within-before x v))
within_any-valid_ranges x v lower upper compare_geq rs hl hu h =
    rw (← ok-injective h) (ground arith)
within_any-valid_ranges x v lower upper compare_leq rs hl hu h =
    rw (← ok-injective h) (ground arith)
within_any-valid_ranges x v lower upper compare_neq rs hl hu h =
    rw (← ok-injective h) (ground (arith, within-before x v, within-after x v))
within_any-valid_ranges x v lower upper t rs hl hu h = absurd (cc)

pub compare_integers-mirror :
    (t : ExpressionType) (x v : ℤ)
    → truth (compare_integers (mirror t) x v) ≡ truth (compare_integers t v x)
unfolding mirror
compare_integers-mirror compare_equal x v = ground arith
compare_integers-mirror compare_neq x v = ground arith
compare_integers-mirror t x v = refl
