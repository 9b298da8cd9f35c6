-- ===== src/Executor/Sample.antt =====
-- executor/sample_executor.py.
use eva.Executor.Batches.{rows_of}
use eva.Prelude.{
  ◌%◌, ℕ, zero, suc, ◌+◌, ◌-◌, ◌≤◌, ◌<◌, ◌≡◌, refl, sym, ap, ◌∙◌, inl, inr, false, List, [], ◌∷◌,
  ◌++◌, arith, leb, ◌==◌, if◌then◌else◌, Bool-cases, length, every_from,
}
use eva.Prelude.Int.{ℤ, pos, negsuc, ◌-ℤ◌, int_laws}
use eva.Prelude.Result.{zero_division_error, Result, err, ok, ◌>>=◌}
use eva.Readers.DecordReader.Defs.{mod_ℤ}
use native.Mathlib.Nat.{add-mod_right, mod-eq_of_lt, mod-lt}

mod_ℤ-none : (rate skip : ℕ) → skip < rate → mod_ℤ (pos skip -ℤ pos 0) rate ≡ skip
mod_ℤ-none rate skip h = ap (λ a. mod_ℤ a rate) whole ∙ mod-eq_of_lt h
  where
    whole : pos skip -ℤ pos 0 ≡ pos skip
    whole = omega int_laws

mod_ℤ-lt : (rate : ℕ) (a : ℤ) → 0 < rate → mod_ℤ a rate < rate
mod_ℤ-lt rate (pos n) h = mod-lt n h
mod_ℤ-lt rate (negsuc n) h = omega arith

one_less : (skip n : ℕ) → pos (suc skip) -ℤ pos (suc n) ≡ pos skip -ℤ pos n
one_less skip n = omega int_laws

mod_ℤ-wrap :
    (rate n : ℕ)
    → 0 < rate
    → mod_ℤ (pos 0 -ℤ pos (suc n)) rate ≡ mod_ℤ (pos (rate - 1) -ℤ pos n) rate
mod_ℤ-wrap rate n h = ap (λ a. mod_ℤ a rate) below ∙ elim (Bool-cases (leb (suc n) rate)) [
  | inl e ↦
      let fits : suc n ≤ rate = ground arith in
      let left : pos (rate - 1) -ℤ pos n ≡ pos (rate - 1 - n) = omega int_laws in
      ap (λ k. rate - 1 - k) (mod-eq_of_lt (ground arith))
      ∙ sym (mod-eq_of_lt (omega arith))
      ∙ ap (λ a. mod_ℤ a rate) (sym left)
  | inr e ↦
      let over : rate ≤ n = ground arith in
      let left : pos (rate - 1) -ℤ pos n ≡ negsuc (n - rate) = omega int_laws in
      let round : n ≡ n - rate + rate = ground arith in
      ap (λ k. rate - 1 - k) (ap (λ k. k % rate) round ∙ add-mod_right (n - rate) rate)
      ∙ ap (λ a. mod_ℤ a rate) (sym left)
]
  where
    below : pos 0 -ℤ pos (suc n) ≡ negsuc n
    below = omega int_laws

module _ {Row : Type 0} where
  -- `batch[current :: freq]`: a step of 0 counts as none
  abbrev pub every_of : ℕ → ℕ → List Row → List Row
  every_of current sample_freq batch =
      every_from current (if sample_freq == 0 then 1 else sample_freq) batch

  -- the loop of `exec`
  unfoldable pub sample_exec : ℕ → ℕ → List (List Row) → Result (List (List Row))
  sample_exec sample_freq current [] = ok []
  sample_exec sample_freq current (batch ∷ batches) =
      let later : ℕ = mod_ℤ (pos current -ℤ pos (length batch)) sample_freq in
      let rest = sample_exec sample_freq later batches in
      if sample_freq == 0
      then err zero_division_error
      else rest >>= λ following. ok (every_of current sample_freq batch ∷ following)

  every_from-append :
      (rate skip : ℕ) (xs ys : List Row)
      → skip < rate
      → every_from skip rate (xs ++ ys)
        ≡ every_from skip rate xs ++ every_from (mod_ℤ (pos skip -ℤ pos (length xs)) rate) rate ys
  unfolding every_from
  every_from-append rate skip [] ys h =
      ap (λ k. every_from k rate ys) (sym (mod_ℤ-none rate skip h))
  every_from-append rate zero (x ∷ xs) ys h = ap (◌∷◌ x) (
      every_from-append rate (rate - 1) xs ys (omega arith)
      ∙ ap (λ k. every_from (rate - 1) rate xs ++ every_from k rate ys)
          (sym (mod_ℤ-wrap rate (length xs) h)))
  every_from-append rate (suc skip) (x ∷ xs) ys h =
      every_from-append rate skip xs ys (omega arith)
      ∙ ap (λ k. every_from skip rate xs ++ every_from k rate ys)
          (ap (λ k. mod_ℤ k rate) (sym (one_less skip (length xs))))

  -- A sample with a frequency that is not 0 lets through the first row and every row that many
  -- further on, across the batches that the rows come in.
  pub sample_exec-every :
      (sample_freq current : ℕ) (batches : List (List Row))
      → current < sample_freq
      → (out : List (List Row)) × (sample_exec sample_freq current batches ≡ ok out)
        × (rows_of out ≡ every_from current sample_freq (rows_of batches))
  unfolding sample_exec every_from
  sample_exec-every sample_freq current [] h = ([], refl, refl)
  sample_exec-every sample_freq current (batch ∷ batches) h =
      let later : ℕ = mod_ℤ (pos current -ℤ pos (length batch)) sample_freq in
      let (out, e, q) =
        sample_exec-every sample_freq later batches
          (mod_ℤ-lt sample_freq (pos current -ℤ pos (length batch)) (omega arith)) in
      let some_freq : (sample_freq == 0) ≡ false = ground arith in
      (
        every_from current sample_freq batch ∷ out,
        rw (some_freq, e) refl,
        ap (◌++◌ (every_from current sample_freq batch)) q
            ∙ sym (every_from-append sample_freq current batch (rows_of batches) h),
      )
