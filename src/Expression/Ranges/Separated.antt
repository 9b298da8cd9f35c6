-- ===== src/Expression/Ranges/Separated.antt =====
-- The ranges of a result are in order, and two of them never touch.
use eva.Expression.Ranges.Union.{Range, sorted, reduce, reduce_all, union}
use eva.Prelude.{◌≡◌, sym, ap, subst, ◌∙◌, inl, inr, true, List, [], ◌∷◌, ◌++◌, arith, Bool-cases}
use eva.Prelude.Int.{pos, ◌-ℤ◌, ltb_ℤ, leb_ℤ}
use mathlib.Core.List.{reverse, reverse-append, append-nil, append_assoc}

-- each range ends at least two numbers before the next one begins
abbrev pub Separated : List Range → Type 0
Separated [] = Unit
Separated (r ∷ []) = Unit
Separated (r ∷ s ∷ rs) = (ltb_ℤ r.end (s.begin -ℤ pos 1) ≡ true) × Separated (s ∷ rs)

-- the same of a list that stands in reverse
abbrev SeparatedBack : List Range → Type 0
SeparatedBack [] = Unit
SeparatedBack (s ∷ []) = Unit
SeparatedBack (s ∷ r ∷ rs) = (ltb_ℤ r.end (s.begin -ℤ pos 1) ≡ true) × SeparatedBack (r ∷ rs)

reduce-SeparatedBack :
    (rs : List Range) (r : Range) → SeparatedBack rs → SeparatedBack (reduce rs r)
unfolding reduce
reduce-SeparatedBack [] r h = tt
reduce-SeparatedBack (last ∷ []) r h = elim (Bool-cases (leb_ℤ (r.begin -ℤ pos 1) last.end)) [
  | inl e ↦ rw e tt
  | inr e ↦ rw e (ground arith, tt)
]
reduce-SeparatedBack (last ∷ s ∷ rs) r h = elim (Bool-cases (leb_ℤ (r.begin -ℤ pos 1) last.end)) [
  | inl e ↦ rw e h
  | inr e ↦ rw e (ground arith, h)
]

reduce_all-SeparatedBack :
    (acc rs : List Range) → SeparatedBack acc → SeparatedBack (reduce_all acc rs)
unfolding reduce_all
reduce_all-SeparatedBack acc [] h = h
reduce_all-SeparatedBack acc (r ∷ rs) h =
    reduce_all-SeparatedBack (reduce acc r) rs (reduce-SeparatedBack acc r h)

reverse-Separated :
    (s : Range) (acc rest : List Range)
    → SeparatedBack (s ∷ acc)
    → Separated (s ∷ rest)
    → Separated (reverse (s ∷ acc) ++ rest)
reverse-Separated s [] rest h k = k
reverse-Separated s (r ∷ acc) rest h k =
    subst Separated
      (shift s (reverse (r ∷ acc)) rest
        ∙ ap (λ l. l ++ rest) (sym (reverse-append (s ∷ []) (r ∷ acc))))
      (reverse-Separated r acc (s ∷ rest) h.1 (h.0, k))
  where
    shift : (s : Range) (xs rest : List Range) → xs ++ s ∷ rest ≡ (xs ++ s ∷ []) ++ rest
    shift s xs rest = sym (append_assoc xs (s ∷ []) rest)

-- The ranges that `union` returns are in order, and between two of them lies a number.
pub union-Separated : (ranges : List Range) → Separated (union ranges)
unfolding union
union-Separated ranges =
    from_back (reduce_all [] (sorted ranges)) (reduce_all-SeparatedBack [] (sorted ranges) tt)
  where
    from_back : (rs : List Range) → SeparatedBack rs → Separated (reverse rs)
    from_back [] h = tt
    from_back (s ∷ acc) h =
        subst Separated (append-nil (reverse (s ∷ acc))) (reverse-Separated s acc [] h tt)
