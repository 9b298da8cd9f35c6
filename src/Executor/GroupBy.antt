-- ===== src/Executor/GroupBy.antt =====
-- executor/groupby_executor.py, and `Batch.__add__` of models/storage/batch.py.
use eva.Executor.Batches.{
  rows_of, slice_of, append_nil, append_assoc, slice_of-stop, slice_of-start,
}
use eva.Prelude.{
  ℕ, zero, suc, ◌≤◌, ◌<◌, ◌≡◌, refl, sym, ap, ◌∙◌, inl, inr, Bool, true, false, none, some, List,
  [], ◌∷◌, ◌++◌, arith, leb, if◌then◌else◌, Bool-cases, length, take, drop, take-append-drop,
  length-take, length-drop,
}
use eva.Prelude.Result.{unsupported, Result, err, ok, ◌>>=◌}

module _ {Row : Type 0} where
  -- `Batch.empty`
  abbrev pub is_empty : List Row → Bool
  is_empty [] = true
  is_empty (x ∷ xs) = false

  -- `Batch.__add__`
  abbrev pub add_batches : List Row → List Row → List Row
  add_batches self other_batch =
      if is_empty self
      then other_batch
      else if is_empty other_batch
      then self
      else self ++ other_batch

  -- the inner loop of `exec`: the segments that are full, and the rows that are left
  unfoldable pub segments : ℕ → ℕ → List Row → Result (List (List Row) × List Row)
  unfolding slice_of
  segments zero segment_length new_batch = err unsupported
  segments (suc fuel) segment_length new_batch =
      let rest =
        slice_of (some segment_length) none new_batch
        >>= (λ later. segments fuel segment_length later) in
      if leb segment_length (length new_batch)
      then slice_of none (some segment_length) new_batch
        >>= (λ segment. rest >>= λ (more, left). ok (segment ∷ more, left))
      else ok ([], new_batch)

  -- the loop of `exec` on the batches of the child
  unfoldable pub groupby_exec : ℕ → List Row → List (List Row) → Result (List (List Row))
  groupby_exec segment_length buffer [] = ok []
  groupby_exec segment_length buffer (batch ∷ batches) =
      let new_batch : List Row = add_batches buffer batch in
      segments (suc (length new_batch)) segment_length new_batch >>= λ (full, left).
      groupby_exec segment_length left batches >>= λ more. ok (full ++ more)

  -- every batch has just that many rows
  abbrev pub AllOfLength : ℕ → List (List Row) → Type 0
  AllOfLength n [] = Unit
  AllOfLength n (batch ∷ batches) = (length batch ≡ n) × AllOfLength n batches

  AllOfLength-append :
      (n : ℕ) (xs ys : List (List Row))
      → AllOfLength n xs
      → AllOfLength n ys
      → AllOfLength n (xs ++ ys)
  AllOfLength-append n [] ys h k = k
  AllOfLength-append n (x ∷ xs) ys h k = (h.0, AllOfLength-append n xs ys h.1 k)

  rows_of-append : (xs ys : List (List Row)) → rows_of (xs ++ ys) ≡ rows_of xs ++ rows_of ys
  rows_of-append [] ys = refl
  rows_of-append (x ∷ xs) ys =
      ap (◌++◌ x) (rows_of-append xs ys) ∙ sym (append_assoc x (rows_of xs) (rows_of ys))

  add_batches_lem :
      (self other_batch : List Row) → add_batches self other_batch ≡ self ++ other_batch
  add_batches_lem [] ys = refl
  add_batches_lem (x ∷ xs) [] = ap (◌∷◌ x) (sym (append_nil xs))
  add_batches_lem (x ∷ xs) (y ∷ ys) = refl

  -- enough fuel cuts a batch into full segments and fewer rows than a segment has
  segments_lem :
      (fuel segment_length : ℕ) (new_batch : List Row)
      → 0 < segment_length
      → length new_batch < fuel
      → (full : List (List Row)) × (left : List Row) × (segments fuel segment_length new_batch
          ≡ ok (full, left))
        × AllOfLength segment_length full
        × (length left < segment_length)
        × (rows_of full ++ left ≡ new_batch)
  unfolding segments
  segments_lem zero n new_batch h k = absurd (omega arith)
  segments_lem (suc fuel) n new_batch h k = elim (Bool-cases (leb n (length new_batch))) [
    | inl e ↦
        let enough : n ≤ length new_batch = ground arith in
        let shorter : length (drop n new_batch) < fuel = omega (arith, length-drop n new_batch) in
        let (full, left, q, exact, fewer, all) = segments_lem fuel n (drop n new_batch) h shorter in
        (
          take n new_batch ∷ full,
          left,
          rw (e, slice_of-stop n new_batch h enough, slice_of-start n new_batch enough, q) refl,
          (omega (arith, length-take n new_batch), exact),
          fewer,
          append_assoc (take n new_batch) (rows_of full) left
              ∙ ap (◌++◌ (take n new_batch)) all
              ∙ take-append-drop n new_batch,
        )
    | inr e ↦ ([], new_batch, rw e refl, tt, ground arith, refl)
  ]

  -- Grouping with a segment length that is not 0 returns: every segment that it yields has just
  -- that many rows, the segments in a row are the rows of the child in their order, and fewer rows
  -- than a segment has are left out at the end.
  pub groupby_exec-segments :
      (segment_length : ℕ) (buffer : List Row) (batches : List (List Row))
      → 0 < segment_length
      → length buffer < segment_length
      → (out : List (List Row)) × (dangling : List Row) × (groupby_exec segment_length buffer
            batches
          ≡ ok out)
        × AllOfLength segment_length out
        × (length dangling < segment_length)
        × (rows_of out ++ dangling ≡ buffer ++ rows_of batches)
  unfolding groupby_exec
  groupby_exec-segments n buffer [] h k = ([], buffer, refl, tt, k, sym (append_nil buffer))
  groupby_exec-segments n buffer (batch ∷ batches) h k =
      let new_batch : List Row = add_batches buffer batch in
      let (full, left, e, exact, fewer, all) =
        segments_lem (suc (length new_batch)) n new_batch h (omega arith) in
      let (out, dangling, q, exact_too, few, all_too) =
        groupby_exec-segments n left batches h fewer in
      (
        full ++ out,
        dangling,
        rw (e, q) refl,
        AllOfLength-append n full out exact exact_too,
        few,
        ap (λ rows. rows ++ dangling) (rows_of-append full out)
            ∙ append_assoc (rows_of full) (rows_of out) dangling
            ∙ ap (◌++◌ (rows_of full)) all_too
            ∙ sym (append_assoc (rows_of full) left (rows_of batches))
            ∙ ap (λ rows. rows ++ rows_of batches) (all ∙ add_batches_lem buffer batch)
            ∙ append_assoc buffer batch (rows_of batches),
      )
