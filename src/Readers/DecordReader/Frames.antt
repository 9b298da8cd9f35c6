-- ===== src/Readers/DecordReader/Frames.antt =====
-- The frames of a stretch of a video, and the loops of `_read` on one range against them.
use eva.Expression.Traversal.{total}
use eva.Prelude.{
  ◌%◌, ℕ, zero, suc, ◌+◌, ◌-◌, ◌≤◌, ◌<◌, ◌≡◌, refl, sym, ap, ap₂, ◌∙◌, inl, inr, Bool, true, false,
  List, [], ◌∷◌, ◌++◌, arith, leb, ◌==◌, Bool-cases, filter, filter-append,
}
use eva.Prelude.Int.{ℤ, pos, ◌+ℤ◌, +ℤ_parts, leb_ℤ}
use eva.Readers.DecordReader.Defs.{ids_from, rounds, mod_ℤ, align}
use native.Mathlib.Nat.{mod-add-mod, add-mod_right, mod-eq_of_lt, mod_self}

-- `n` frames, from `lo` on
unfoldable pub frames : ℕ → ℕ → List ℤ
frames lo zero = []
frames lo (suc n) = pos lo ∷ frames (lo + 1) n

pub frames-append :
    (lo a b mid total : ℕ)
    → lo + a ≡ mid
    → total ≡ a + b
    → frames lo total ≡ frames lo a ++ frames mid b
unfolding frames
frames-append lo zero b mid total e t = ap₂ frames (omega arith) (omega arith)
frames-append lo (suc a) b mid zero e t = absurd (omega arith)
frames-append lo (suc a) b mid (suc total) e t =
    ap (◌∷◌ (pos lo)) (frames-append (lo + 1) a b mid total (omega arith) (omega arith))

pub filter-frames_cong :
    (p q : ℤ → Bool) (lo n : ℕ)
    → ((i : ℕ) → lo ≤ i → i < lo + n → p (pos i) ≡ q (pos i))
    → filter p (frames lo n) ≡ filter q (frames lo n)
unfolding frames
filter-frames_cong p q lo zero h = refl
filter-frames_cong p q lo (suc n) h = rw (
  h lo (omega arith) (omega arith),
  filter-frames_cong p q (lo + 1) n (λ i a b. h i (omega arith) (omega arith)),
)

pub filter-frames_none :
    (p : ℤ → Bool) (lo n : ℕ)
    → ((i : ℕ) → lo ≤ i → i < lo + n → p (pos i) ≡ false)
    → filter p (frames lo n) ≡ []
unfolding frames
filter-frames_none p lo zero h = refl
filter-frames_none p lo (suc n) h =
    rw (h lo (omega arith) (omega arith))
      (filter-frames_none p (lo + 1) n (λ i a b. h i (omega arith) (omega arith)))

-- frames that do not pass can be left out at the front
pub filter-frames_skip :
    (p : ℤ → Bool) (lo k d : ℕ)
    → ((i : ℕ) → lo ≤ i → i < lo + d → p (pos i) ≡ false)
    → filter p (frames lo k) ≡ filter p (frames (lo + d) (k - d))
unfolding frames
filter-frames_skip p lo k d h = elim (Bool-cases (leb d k)) [
  | inl e ↦
      ap (filter p) (frames-append lo d (k - d) (lo + d) k refl (rest_of d k e))
      ∙ filter-append p (frames lo d) (frames (lo + d) (k - d))
      ∙ ap (λ front. front ++ filter p (frames (lo + d) (k - d))) (filter-frames_none p lo d h)
  | inr e ↦
      filter-frames_none p lo k (λ i a b. h i a (ground arith))
      ∙ ap (λ m. filter p (frames (lo + d) m)) (none_left d k e)
]
  where
    rest_of : (d k : ℕ) → leb d k ≡ true → k ≡ d + (k - d)
    rest_of d k e = ground arith

    none_left : (d k : ℕ) → leb d k ≡ false → 0 ≡ k - d
    none_left d k e = ground arith

-- a stretch with nothing that passes before it
pub filter-frames_split :
    (p : ℤ → Bool) (lo n b k : ℕ)
    → lo ≤ b
    → b + k ≤ lo + n
    → ((i : ℕ) → i < b → p (pos i) ≡ false)
    → filter p (frames lo n) ≡ filter p (frames b k) ++ filter p (frames (b + k) (lo + n - (b + k)))
filter-frames_split p lo n b k hb hk h =
    filter-frames_skip p lo n (b - lo) (λ i c d. h i (omega arith))
    ∙ ap (filter p) (
        frames-append (lo + (b - lo)) k (lo + n - (b + k)) (b + k) (n - (b - lo)) (omega arith)
          (omega arith)
        ∙ ap (λ m. frames m k ++ frames (b + k) (lo + n - (b + k))) (same lo b hb))
    ∙ filter-append p (frames b k) (frames (b + k) (lo + n - (b + k)))
  where
    same : (lo b : ℕ) → lo ≤ b → lo + (b - lo) ≡ b
    same lo b h = omega arith

-- the frames that a sampling rate keeps
abbrev pub is_multiple : ℕ → ℤ → Bool
is_multiple rate i = mod_ℤ i rate == 0

-- Between a multiple of the rate and the next one lies none.
is_multiple_between :
    (rate lo i : ℕ)
    → lo % rate ≡ 0
    → lo + 1 ≤ i
    → i < lo + 1 + (rate - 1)
    → is_multiple rate (pos i) ≡ false
is_multiple_between rate lo i h a b =
    let between : i ≡ lo + (i - lo) = omega arith in
    let remainder : i % rate ≡ i - lo =
      ap (λ m. m % rate) between
      ∙ sym (mod-add-mod lo rate (i - lo))
      ∙ ap (λ m. (m + (i - lo)) % rate) h
      ∙ ap (λ m. m % rate) (plain (i - lo))
      ∙ mod-eq_of_lt (omega arith) in
    not_zero (i % rate) (omega arith)
  where
    plain : (n : ℕ) → 0 + n ≡ n
    plain n = omega arith

    not_zero : (n : ℕ) → 0 < n → (n == 0) ≡ false
    not_zero n h = ground arith

next_multiple : (rate lo : ℕ) → 0 < rate → lo % rate ≡ 0 → (lo + 1 + (rate - 1)) % rate ≡ 0
next_multiple zero lo r h = absurd (omega arith)
next_multiple (suc r) lo pos_rate h =
    ap (λ m. m % suc r) (omega arith) ∙ add-mod_right lo (suc r) ∙ h

-- The loop from a multiple of the rate on reads the multiples up to the end of the range.
pub ids_from_lem :
    (fuel rate lo n : ℕ) (end : ℤ)
    → 0 < rate
    → lo % rate ≡ 0
    → n ≡ rounds (pos lo) end
    → n ≤ fuel
    → ids_from fuel rate (pos lo) end ≡ filter (is_multiple rate) (frames lo n)
unfolding ids_from frames
ids_from_lem zero rate lo zero end hr hl hn hf = refl
ids_from_lem zero rate lo (suc n) end hr hl hn hf = absurd (omega arith)
ids_from_lem (suc fuel) rate lo zero end hr hl hn hf = ground arith
ids_from_lem (suc fuel) rate lo (suc n) end hr hl hn hf =
    let inside : leb_ℤ (pos lo) end ≡ true = ground arith in
    let next : pos lo +ℤ pos rate ≡ pos (lo + 1 + (rate - 1)) =
      ground (arith, +ℤ_parts (pos lo) (pos rate)) in
    rw (inside, hl, next)
      (ap (◌∷◌ (pos lo)) (
        ids_from_lem fuel rate (lo + 1 + (rate - 1)) (n - (rate - 1)) end hr
          (next_multiple rate lo hr hl) (omega arith) (omega arith)
        ∙ sym (
            filter-frames_skip (is_multiple rate) (lo + 1) n (rate - 1)
              (λ i a b. is_multiple_between rate lo i hl a b))))

-- The first multiple of the rate that is not before the beginning.
next_aligned : (rate lo : ℕ) → 0 < rate → (lo + (rate - lo % rate)) % rate ≡ 0
next_aligned rate lo h =
    sym (mod-add-mod lo rate (rate - lo % rate))
    ∙ ap (λ m. m % rate) (whole (lo % rate) rate (below rate lo h))
    ∙ mod_self rate
  where
    below : (rate lo : ℕ) → 0 < rate → lo % rate < rate
    below (suc r) lo h = omega arith
    below zero lo h = absurd (omega arith)

    whole : (m rate : ℕ) → m < rate → m + (rate - m) ≡ rate
    whole m rate h = omega arith

is_multiple_before :
    (rate lo i : ℕ)
    → (lo % rate == 0) ≡ false
    → lo ≤ i
    → i < lo + (rate - lo % rate)
    → is_multiple rate (pos i) ≡ false
is_multiple_before rate lo i h a b =
    let between : i ≡ lo + (i - lo) = omega arith in
    let remainder : i % rate ≡ lo % rate + (i - lo) =
      ap (λ m. m % rate) between
      ∙ sym (mod-add-mod lo rate (i - lo))
      ∙ mod-eq_of_lt (omega arith) in
    not_zero (i % rate) (lo % rate) h (omega arith)
  where
    not_zero : (n m : ℕ) → (m == 0) ≡ false → m ≤ n → (n == 0) ≡ false
    not_zero n m h k = ground arith

-- One range, read with the sampling rate.
pub ids_from-align :
    (rate lo n : ℕ) (end : ℤ)
    → 0 < rate
    → n ≡ rounds (pos lo) end
    → ids_from (rounds (align rate (pos lo)) end) rate (align rate (pos lo)) end
      ≡ filter (is_multiple rate) (frames lo n)
unfolding align
ids_from-align rate lo n end hr hn = elim (Bool-cases (lo % rate == 0)) [
  | inl e ↦
      rw e (ids_from_lem (rounds (pos lo) end) rate lo n end hr (ground arith) hn (omega arith))
  | inr e ↦
      let step : ℕ = rate - lo % rate in
      let next : pos lo +ℤ pos step ≡ pos (lo + step) =
        ground (arith, +ℤ_parts (pos lo) (pos step)) in
      rw (e, next)
        (ids_from_lem (rounds (pos (lo + step)) end) rate (lo + step) (n - step) end hr
            (next_aligned rate lo hr) (omega arith) (omega arith)
          ∙ sym (
              filter-frames_skip (is_multiple rate) lo n step
                (λ i a b. is_multiple_before rate lo i e a b)))
]
