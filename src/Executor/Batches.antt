-- ===== src/Executor/Batches.antt =====
-- models/storage/batch.py: a batch as the list of its rows, and the slices that executors take of it.
use eva.Prelude.{
  ℕ, zero, suc, ◌+◌, ◌-◌, ◌≤◌, ◌<◌, ◌≡◌, refl, ap, true, false, ◌||◌, Option, none, some, List, [],
  ◌∷◌, ◌++◌, arith, leb, ◌==◌, if◌then◌else◌, length, take, drop, length-drop,
}
use eva.Prelude.Result.{index_error, Result, err, ok}

-- `Batch.concat`, and the rows that an executor yields, whatever its batches
abbrev pub rows_of {ℓ} : {Row : Type ℓ} → List (List Row) → List Row
rows_of [] = []
rows_of (batch ∷ batches) = batch ++ rows_of batches

-- `indices.start if indices.start else 0`
abbrev pub start_of : Option ℕ → ℕ
start_of none = 0
start_of (some n) = n

-- `indices.stop if indices.stop else len(self.frames)`: a stop of 0 counts as none
abbrev pub stop_of : Option ℕ → ℕ → ℕ
stop_of none len = len
stop_of (some n) len = if n == 0 then len else n

-- `batch[start:stop]` with no negative numbers; pandas raises for a position that is not there
unfoldable pub slice_of {ℓ} : {Row : Type ℓ} → Option ℕ → Option ℕ → List Row → Result (List Row)
slice_of start stop rows =
    let first : ℕ = start_of start in
    let end : ℕ = stop_of stop (length rows) in
    if leb end (length rows) || leb end first
    then ok (take (end - first) (drop first rows))
    else err index_error

module _ {Row : Type 0} where
  pub append_nil : (xs : List Row) → xs ++ [] ≡ xs
  append_nil [] = refl
  append_nil (x ∷ xs) = ap (◌∷◌ x) (append_nil xs)

  pub append_assoc : (xs ys zs : List Row) → (xs ++ ys) ++ zs ≡ xs ++ (ys ++ zs)
  append_assoc [] ys zs = refl
  append_assoc (x ∷ xs) ys zs = ap (◌∷◌ x) (append_assoc xs ys zs)

  pub slice_of-stop :
      (n : ℕ) (rows : List Row)
      → 0 < n
      → n ≤ length rows
      → slice_of none (some n) rows ≡ ok (take n rows)
  unfolding slice_of
  slice_of-stop n rows h k =
      let positive : (n == 0) ≡ false = ground arith in
      let inside : leb n (length rows) ≡ true = ground arith in
      let whole : n - 0 ≡ n = omega arith in rw (positive, inside, whole) refl

  pub slice_of-start :
      (n : ℕ) (rows : List Row) → n ≤ length rows → slice_of (some n) none rows ≡ ok (drop n rows)
  unfolding slice_of
  slice_of-start n rows h =
      let inside : leb (length rows) (length rows) ≡ true = ground arith in
      rw inside
        (ap ok (take_all (length rows - n) (drop n rows) (omega (arith, length-drop n rows))))
    where
      take_all : (m : ℕ) (xs : List Row) → length xs ≤ m → take m xs ≡ xs
      take_all zero [] e = refl
      take_all (suc m) [] e = refl
      take_all zero (x ∷ xs) e = absurd (omega arith)
      take_all (suc m) (x ∷ xs) e = ap (◌∷◌ x) (take_all m xs (omega arith))

  pub slice_of-both :
      (n i : ℕ) (rows : List Row)
      → 0 < i
      → n + i ≤ length rows
      → slice_of (some n) (some (n + i)) rows ≡ ok (take i (drop n rows))
  unfolding slice_of
  slice_of-both n i rows h k =
      let positive : (n + i == 0) ≡ false = ground arith in
      let inside : leb (n + i) (length rows) ≡ true = ground arith in
      let size : n + i - n ≡ i = omega arith in rw (positive, inside, size) refl
