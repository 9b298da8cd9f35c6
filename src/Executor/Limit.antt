-- ===== src/Executor/Limit.antt =====
-- executor/limit_executor.py.
use eva.Executor.Batches.{rows_of, slice_of, append_nil, slice_of-stop, append_nil}
use eva.Prelude.{
  ℕ, zero, suc, ◌+◌, ◌-◌, ◌≤◌, ◌<◌, ◌≡◌, refl, sym, ap, ◌∙◌, inl, inr, true, none, some, List, [],
  ◌∷◌, ◌++◌, arith, ltb, leb, ◌==◌, if◌then◌else◌, Bool-cases, length, take,
}
use eva.Prelude.Result.{Result, ok, assert, ◌>>=◌, ◌>>◌}

module _ {Row : Type 0} where
  -- the loop of `exec`, with what is left of the limit
  unfoldable pub limit_exec : ℕ → List (List Row) → Result (List (List Row))
  unfolding slice_of
  limit_exec remaining_tuples [] = ok []
  limit_exec remaining_tuples (batch ∷ batches) =
      let left : ℕ = remaining_tuples - length batch in
      let rest = limit_exec left batches in
      if ltb remaining_tuples (length batch)
      then slice_of none (some remaining_tuples) batch >>= (λ cut. ok (cut ∷ []))
      else if leb left 0
      then assert (left == 0) >> ok (batch ∷ [])
      else rest >>= λ others. ok (batch ∷ others)

  take-past : (n : ℕ) (xs ys : List Row) → n ≤ length xs → take n (xs ++ ys) ≡ take n xs
  take-past zero xs ys h = refl
  take-past (suc n) [] ys h = absurd (omega arith)
  take-past (suc n) (x ∷ xs) ys h = ap (◌∷◌ x) (take-past n xs ys (omega arith))

  take-over : (n m : ℕ) (xs ys : List Row) → n ≡ length xs + m → take n (xs ++ ys) ≡ xs ++ take m ys
  take-over n m [] ys h = ap (λ k. take k ys) (omega arith)
  take-over zero m (x ∷ xs) ys h = absurd (omega arith)
  take-over (suc n) m (x ∷ xs) ys h = ap (◌∷◌ x) (take-over n m xs ys (omega arith))

  -- A limit that is not 0 lets through the first rows, as many as it says, in whatever batches they
  -- come.
  pub limit_exec-take :
      (n : ℕ) (batches : List (List Row))
      → 0 < n
      → (out : List (List Row)) × (limit_exec n batches ≡ ok out)
        × (rows_of out ≡ take n (rows_of batches))
  unfolding limit_exec
  limit_exec-take zero [] h = absurd (omega arith)
  limit_exec-take (suc n) [] h = ([], refl, refl)
  limit_exec-take n (batch ∷ batches) h = elim (Bool-cases (ltb n (length batch))) [
    | inl cut ↦
        let inside : n ≤ length batch = ground arith in
        (
          take n batch ∷ [],
          rw (cut, slice_of-stop n batch h inside) refl,
          append_nil (take n batch) ∙ sym (take-past n batch (rows_of batches) inside),
        )
    | inr uncut ↦ elim (Bool-cases (leb (n - length batch) 0)) [
      | inl full ↦
          let none_left : (n - length batch == 0) ≡ true = ground arith in
          let exact : n ≡ length batch + 0 = ground arith in
          (
            batch ∷ [],
            rw (uncut, full, none_left) refl,
            sym (take-over n 0 batch (rows_of batches) exact),
          )
      | inr more ↦
          let (out, e, q) = limit_exec-take (n - length batch) batches (ground arith) in
          let split : n ≡ length batch + (n - length batch) = ground arith in
          (
            batch ∷ out,
            rw (uncut, more, e) refl,
            ap (◌++◌ batch) q ∙ sym (take-over n (n - length batch) batch (rows_of batches) split),
          )
    ]
  ]
