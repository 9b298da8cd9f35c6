-- ===== src/Executor/OrderBy.antt =====
-- executor/orderby_executor.py. What pandas makes of the rows, with the columns that `exec`
-- evaluates for it, is a parameter.
use eva.Executor.Batches.{rows_of, slice_of, slice_of-both}
use eva.Expression.Ranges.Union.{sorted}
use eva.Prelude.{
  ℕ, zero, suc, ◌+◌, ◌≤◌, ◌<◌, ◌≡◌, refl, sym, ap, ap₂, ◌∙◌, false, some, List, [], ◌∷◌, ◌++◌, map,
  arith, ◌==◌, if◌then◌else◌, length, length-append, take, drop, take-append-drop, length-take,
  length-drop,
}
use eva.Prelude.Result.{key_error, Result, err, ok, ◌>>=◌}

abbrev pub AllPositive : List ℕ → Type 0
AllPositive [] = Unit
AllPositive (i ∷ sizes) = (0 < i) × AllPositive sizes

abbrev pub sum_of : List ℕ → ℕ
sum_of [] = 0
sum_of (i ∷ sizes) = i + sum_of sizes

module _ {Row : Type 0} where
  -- `sort_orderby` under the `try` of `exec`, which leaves the rows as they are at a KeyError
  abbrev pub sorted_or_same : (List Row → Result (List Row)) → List Row → Result (List Row)
  sorted_or_same sort_orderby rows = caught (sort_orderby rows)
    where
      caught : Result (List Row) → Result (List Row)
      caught (err key_error) = ok rows
      caught (err raised) = err raised
      caught (ok sorted_rows) = ok sorted_rows

  -- the loop that splits the rows again
  unfoldable pub split_batches : ℕ → List ℕ → List Row → Result (List (List Row))
  unfolding slice_of
  split_batches index [] rows = ok []
  split_batches index (i ∷ batch_sizes) rows =
      slice_of (some index) (some (index + i)) rows >>= λ batch.
      split_batches (index + i) batch_sizes rows >>= λ more. ok (batch ∷ more)

  -- `exec` on the executor's `batch_sizes` and the batches of its child
  unfoldable pub orderby_exec :
      (List Row → Result (List Row)) → List ℕ → List (List Row) → List ℕ × Result (List (List Row))
  orderby_exec sort_orderby batch_sizes batches =
      let sizes : List ℕ = batch_sizes ++ map length batches in
      (
        sizes,
        (if length (rows_of batches) == 0
            then ok []
            else sorted_or_same sort_orderby (rows_of batches) >>= λ rows.
                split_batches 0 sizes rows),
      )

  length-rows_of :
      (batches : List (List Row)) → sum_of (map length batches) ≡ length (rows_of batches)
  length-rows_of [] = refl
  length-rows_of (batch ∷ batches) =
      omega (arith, length-rows_of batches, length-append batch (rows_of batches))

  drop-more : (n i m : ℕ) (rows : List Row) → m ≡ n + i → drop i (drop n rows) ≡ drop m rows
  drop-more zero i m rows e = ap (λ k. drop k rows) (omega arith)
  drop-more (suc n) i zero rows e = absurd (omega arith)
  drop-more (suc n) zero (suc m) [] e = refl
  drop-more (suc n) (suc i) (suc m) [] e = refl
  drop-more (suc n) i (suc m) (x ∷ rows) e = drop-more n i m rows (omega arith)

  split_batches_lem :
      (index : ℕ) (batch_sizes : List ℕ) (rows : List Row)
      → AllPositive batch_sizes
      → index + sum_of batch_sizes ≡ length rows
      → (out : List (List Row)) × (split_batches index batch_sizes rows ≡ ok out)
        × (map length out ≡ batch_sizes)
        × (rows_of out ≡ drop index rows)
  unfolding split_batches
  split_batches_lem index [] rows h e = ([], refl, refl, sym (drop_all index rows (omega arith)))
    where
      drop_all : (n : ℕ) (rows : List Row) → length rows ≤ n → drop n rows ≡ []
      drop_all zero [] h = refl
      drop_all zero (x ∷ rows) h = absurd (omega arith)
      drop_all (suc n) [] h = refl
      drop_all (suc n) (x ∷ rows) h = drop_all n rows (omega arith)
  split_batches_lem index (i ∷ batch_sizes) rows h e =
      let (out, q, sizes, all) = split_batches_lem (index + i) batch_sizes rows h.1 (omega arith) in
      let batch : List Row = take i (drop index rows) in
      let size : length batch ≡ i =
        omega (arith, length-take i (drop index rows), length-drop index rows) in
      (
        batch ∷ out,
        rw (slice_of-both index i rows h.0 (omega arith), q) refl,
        ap₂ ◌∷◌ size sizes,
        ap (◌++◌ batch) (all ∙ sym (drop-more index i (index + i) rows refl))
            ∙ take-append-drop i (drop index rows),
      )

  -- The first run of the executor returns, where every batch has a row and there is one, and the
  -- sort gives back as many rows: the batches have the sizes of the child's, in their order, and
  -- together they are the sorted rows.
  pub orderby_exec-sorted :
      (sort_orderby : List Row → Result (List Row)) (batches : List (List Row))
      (sorted_rows : List Row)
      → AllPositive (map length batches)
      → 0 < length (rows_of batches)
      → sorted_or_same sort_orderby (rows_of batches) ≡ ok sorted_rows
      → length sorted_rows ≡ length (rows_of batches)
      → (out : List (List Row)) × ((orderby_exec sort_orderby [] batches).1 ≡ ok out)
        × (map length out ≡ map length batches)
        × (rows_of out ≡ sorted_rows)
  unfolding orderby_exec
  orderby_exec-sorted sort_orderby batches sorted_rows positive some_row sorted same =
      let (out, q, sizes, all) =
        split_batches_lem 0 (map length batches) sorted_rows positive
          (omega (arith, length-rows_of batches)) in
      let not_none : (length (rows_of batches) == 0) ≡ false = ground arith in
      (out, rw (not_none, sorted, q) refl, sizes, all)
