-- ===== src/Expression/Ranges/Union.antt =====
-- `overlap` and `union` of `extract_range_list_from_predicate`, and what they keep.
use eva.Prelude.{
  ◌≡◌, refl, sym, ap, ◌∙◌, inl, inr, Bool, true, false, ◌&&◌, ◌||◌, Option, none, some, List, [],
  ◌∷◌, ◌++◌, arith, if◌then◌else◌, Bool-cases, or_assoc, or_left_comm,
}
use eva.Prelude.Int.{ℤ, pos, ◌-ℤ◌, ltb_ℤ, -ℤ_parts, leb_ℤ, eqb_ℤ, max_ℤ, min_ℤ}
use mathlib.Core.List.{reverse, reverse-append}

-- a pair of bounds, both included
pub record Range : Type 0 where
  pub begin : ℤ
  pub end : ℤ

abbrev pub range : ℤ → ℤ → Range
range b e = record { begin = b; end = e }

-- `None` where the two have nothing in common
unfoldable pub overlap : Range → Range → Option Range
overlap x y =
    let b : ℤ = max_ℤ x.begin y.begin in
    let e : ℤ = min_ℤ x.end y.end in if leb_ℤ b e then some (range b e) else none

-- Python's order on pairs
unfoldable pub pair_le : Range → Range → Bool
pair_le x y = ltb_ℤ x.begin y.begin || (eqb_ℤ x.begin y.begin && leb_ℤ x.end y.end)

unfoldable pub insert : Range → List Range → List Range
unfolding pair_le
insert r [] = r ∷ []
insert r (s ∷ rs) = let rest = insert r rs in if pair_le r s then r ∷ s ∷ rs else s ∷ rest

-- `sorted(ranges)`
unfoldable pub sorted : List Range → List Range
unfolding insert
sorted [] = []
sorted (r ∷ rs) = insert r (sorted rs)

-- one round of the loop; the last range of `reduced_list` stands first
unfoldable pub reduce : List Range → Range → List Range
reduce [] r = r ∷ []
reduce (last ∷ reduced) r =
    if leb_ℤ (r.begin -ℤ pos 1) last.end
    then range last.begin (max_ℤ last.end r.end) ∷ reduced
    else r ∷ last ∷ reduced

unfoldable pub reduce_all : List Range → List Range → List Range
unfolding reduce
reduce_all reduced [] = reduced
reduce_all reduced (r ∷ rs) = reduce_all (reduce reduced r) rs

unfoldable pub union : List Range → List Range
unfolding sorted reduce_all ◌-ℤ◌
union ranges = reverse (reduce_all [] (sorted ranges))

-- whether a number lies in a range, and in one of a list
abbrev pub within : ℤ → Range → Bool
within x r = leb_ℤ r.begin x && leb_ℤ x r.end

unfoldable pub within_any : ℤ → List Range → Bool
within_any x [] = false
within_any x (r ∷ rs) = within x r || within_any x rs

pub within_any-append :
    (x : ℤ) (rs ss : List Range) → within_any x (rs ++ ss) ≡ (within_any x rs || within_any x ss)
unfolding within_any
within_any-append x [] ss = refl
within_any-append x (r ∷ rs) ss =
    rw (within_any-append x rs ss) (or_assoc (within x r) (within_any x rs) (within_any x ss))

within_any-insert :
    (x : ℤ) (r : Range) (rs : List Range)
    → within_any x (insert r rs) ≡ (within x r || within_any x rs)
unfolding within_any insert
within_any-insert x r [] = refl
within_any-insert x r (s ∷ rs) = elim (Bool-cases (pair_le r s)) [
  | inl e ↦ rw e
  | inr e ↦
      rw (e, within_any-insert x r rs) (or_left_comm (within x s) (within x r) (within_any x rs))
]

within_any-sorted : (x : ℤ) (rs : List Range) → within_any x (sorted rs) ≡ within_any x rs
unfolding within_any sorted
within_any-sorted x [] = refl
within_any-sorted x (r ∷ rs) = rw (within_any-insert x r (sorted rs), within_any-sorted x rs)

-- every range begins where the one before it begins, or later
pub SortedFrom : ℤ → List Range → Type 0
SortedFrom b [] = Unit
SortedFrom b (r ∷ rs) = (leb_ℤ b r.begin ≡ true) × SortedFrom r.begin rs

insert-SortedFrom :
    (b : ℤ) (r : Range) (rs : List Range)
    → leb_ℤ b r.begin ≡ true
    → SortedFrom b rs
    → SortedFrom b (insert r rs)
unfolding SortedFrom insert
insert-SortedFrom b r [] h k = (h, tt)
insert-SortedFrom b r (s ∷ rs) h k = elim (Bool-cases (pair_le r s)) [
  | inl e ↦ rw e (h, (ground arith, k.1))
  | inr e ↦ rw e (k.0, insert-SortedFrom s.begin r rs (ground arith) k.1)
]

SortedFrom-lower :
    (b c : ℤ) (rs : List Range) → leb_ℤ c b ≡ true → SortedFrom b rs → SortedFrom c rs
unfolding SortedFrom
SortedFrom-lower b c [] e h = tt
SortedFrom-lower b c (r ∷ rs) e h = (ground arith, h.1)

-- some bound lies below all begins of a sorted list
sorted-SortedFrom : (rs : List Range) → (b : ℤ) × SortedFrom b (sorted rs)
unfolding sorted SortedFrom
sorted-SortedFrom [] = (pos 0, tt)
sorted-SortedFrom (r ∷ rs) =
    let (b, h) = sorted-SortedFrom rs in
    elim (Bool-cases (leb_ℤ b r.begin)) [
      | inl e ↦ (b, insert-SortedFrom b r (sorted rs) e h)
      | inr e ↦ (
        r.begin,
        insert-SortedFrom r.begin r (sorted rs) (ground arith)
            (SortedFrom-lower b r.begin (sorted rs) (ground arith) h),
      )
    ]

-- The round joins two ranges only where no number lies between them.
within_any-reduce :
    (x : ℤ) (last r : Range) (reduced : List Range)
    → leb_ℤ last.begin r.begin ≡ true
    → within_any x (reduce (last ∷ reduced) r) ≡ (within x r || within_any x (last ∷ reduced))
unfolding within_any reduce
within_any-reduce x last r reduced h = elim (Bool-cases (leb_ℤ (r.begin -ℤ pos 1) last.end)) [
  | inl e ↦ rw e (
      rw (joined x last r h e) refl
      ∙ sym (or_assoc (within x r) (within x last) (within_any x reduced)))
  | inr e ↦ rw e
]
  where
    joined :
        (x : ℤ) (last r : Range)
        → leb_ℤ last.begin r.begin ≡ true
        → leb_ℤ (r.begin -ℤ pos 1) last.end ≡ true
        → within x (range last.begin (max_ℤ last.end r.end)) ≡ (within x r || within x last)
    joined x last r h e = ground (arith, -ℤ_parts r.begin (pos 1))

within_any-reduce_all :
    (x : ℤ) (last : Range) (reduced rs : List Range)
    → SortedFrom last.begin rs
    → within_any x (reduce_all (last ∷ reduced) rs)
      ≡ (within_any x rs || within_any x (last ∷ reduced))
unfolding reduce_all SortedFrom within_any
within_any-reduce_all x last reduced [] h = refl
within_any-reduce_all x last reduced (r ∷ rs) h =
    elim (Bool-cases (leb_ℤ (r.begin -ℤ pos 1) last.end)) [
      | inl e ↦ rw e (
          within_any-reduce_all x (range last.begin (max_ℤ last.end r.end)) reduced rs
            (SortedFrom-lower r.begin last.begin rs h.0 h.1)
          ∙ ap (λ b. within_any x rs || b) (rw e at (within_any-reduce x last r reduced h.0))
          ∙ or_left_comm (within_any x rs) (within x r) (within x last || within_any x reduced)
          ∙ or_assoc (within x r) (within_any x rs) (within x last || within_any x reduced))
      | inr e ↦ rw e (
          within_any-reduce_all x r (last ∷ reduced) rs h.1
          ∙ or_left_comm (within_any x rs) (within x r) (within x last || within_any x reduced)
          ∙ or_assoc (within x r) (within_any x rs) (within x last || within_any x reduced))
    ]

within_any-reverse : (x : ℤ) (rs : List Range) → within_any x (reverse rs) ≡ within_any x rs
unfolding within_any
within_any-reverse x [] = refl
within_any-reverse x (r ∷ rs) =
    ap (within_any x) (reverse-append (r ∷ []) rs)
    ∙ within_any-append x (reverse rs) (r ∷ [])
    ∙ ground (arith, within_any-reverse x rs)

within_any-reduce_sorted :
    (x : ℤ) (rs : List Range) (b : ℤ)
    → SortedFrom b rs
    → within_any x (reduce_all [] rs) ≡ within_any x rs
unfolding reduce_all within_any SortedFrom
within_any-reduce_sorted x [] b h = refl
within_any-reduce_sorted x (r ∷ rs) b h =
    within_any-reduce_all x r [] rs h.1
    ∙ or_left_comm (within_any x rs) (within x r) false
    ∙ ground arith

-- `union` neither loses a number nor adds one.
pub within_any-union :
    (x : ℤ) (ranges : List Range) → within_any x (union ranges) ≡ within_any x ranges
unfolding union
within_any-union x ranges =
    within_any-reverse x (reduce_all [] (sorted ranges))
    ∙ within_any-reduce_sorted x (sorted ranges) (sorted-SortedFrom ranges).0
        (sorted-SortedFrom ranges).1
    ∙ within_any-sorted x ranges
