-- ===== src/Executor/NestedLoopJoin.antt =====
-- executor/predicate_executor.py, executor/union_executor.py and executor/nested_loop_join_executor.py.
use eva.Executor.Batches.{rows_of, append_assoc, append_assoc}
use eva.Executor.GroupBy.{is_empty}
use eva.Executor.HashJoin.{apply_predicate, matching, index_matches, row_pairs, row_product}
use eva.Expression.FunctionCache.Defs.{merge}
use eva.Expression.Types.{children}
use eva.Prelude.{
  ◌≡◌, refl, sym, ap, ap₂, ◌∙◌, Bool, Option, none, some, List, [], ◌∷◌, ◌++◌, if◌then◌else◌,
  filter, filter-append,
}
use eva.Prelude.Int.{ℤ, pos}
use eva.Prelude.Result.{Result, ok, assert, ◌>>◌}

module _ {A : Type 0} where
  -- the `yield` of a batch that is not empty
  abbrev pub yield_rows : List A → List (List A) → List (List A)
  yield_rows batch following = if is_empty batch then following else batch ∷ following

  rows_of-yield_rows :
      (batch : List A) (following : List (List A))
      → rows_of (yield_rows batch following) ≡ batch ++ rows_of following
  rows_of-yield_rows [] following = refl
  rows_of-yield_rows (x ∷ xs) following = refl

  -- `PredicateExecutor.exec`
  unfoldable pub predicate_exec : Option (A → Bool) → List (List A) → List (List A)
  unfolding apply_predicate
  predicate_exec predicate [] = []
  predicate_exec predicate (batch ∷ batches) =
      yield_rows (apply_predicate predicate batch) (predicate_exec predicate batches)

  -- `UnionExecutor.exec`, on the batches of each child
  unfoldable pub union_exec : Bool → List (List (List A)) → Result (List (List A))
  union_exec all children = assert all >> ok (rows_of children)

  predicate_exec-rows_of :
      (predicate : Option (A → Bool)) (batches : List (List A))
      → rows_of (predicate_exec predicate batches) ≡ apply_predicate predicate (rows_of batches)
  unfolding predicate_exec apply_predicate
  predicate_exec-rows_of none [] = refl
  predicate_exec-rows_of (some predicate) [] = refl
  predicate_exec-rows_of none (batch ∷ batches) =
      rows_of-yield_rows batch (predicate_exec none batches)
      ∙ ap (◌++◌ batch) (predicate_exec-rows_of none batches)
  predicate_exec-rows_of (some predicate) (batch ∷ batches) =
      rows_of-yield_rows (filter predicate batch) (predicate_exec (some predicate) batches)
      ∙ ap (◌++◌ (filter predicate batch)) (predicate_exec-rows_of (some predicate) batches)
      ∙ sym (filter-append predicate batch (rows_of batches))

  rows_of-rows_of : (xs ys : List (List A)) → rows_of (xs ++ ys) ≡ rows_of xs ++ rows_of ys
  rows_of-rows_of [] ys = refl
  rows_of-rows_of (x ∷ xs) ys =
      ap (◌++◌ x) (rows_of-rows_of xs ys) ∙ sym (append_assoc x (rows_of xs) (rows_of ys))

module _ {Outer Inner : Type 0} where
  -- the inner loop of `NestedLoopJoinExecutor.exec`, on batches with their indices
  unfoldable pub inner_exec :
      (List (ℤ × Outer) → List (ℤ × Inner) → List (Outer × Inner))
      → Option (Outer × Inner → Bool)
      → List (ℤ × Outer)
      → List (List (ℤ × Inner))
      → List (List (Outer × Inner))
  unfolding apply_predicate
  inner_exec merge predicate row1 [] = []
  inner_exec merge predicate row1 (row2 ∷ inner) =
      yield_rows (apply_predicate predicate (merge row1 row2))
        (inner_exec merge predicate row1 inner)

  -- the outer loop
  unfoldable pub nested_loop_exec :
      (List (ℤ × Outer) → List (ℤ × Inner) → List (Outer × Inner))
      → Option (Outer × Inner → Bool)
      → List (List (ℤ × Outer))
      → List (List (ℤ × Inner))
      → List (List (Outer × Inner))
  unfolding inner_exec apply_predicate
  nested_loop_exec merge predicate [] inner = []
  nested_loop_exec merge predicate (row1 ∷ outer) inner =
      inner_exec merge predicate row1 inner ++ nested_loop_exec merge predicate outer inner

-- each row in a batch of its own, at the index 0
abbrev pub one_by_one : {A : Type 0} → List A → List (List (ℤ × A))
one_by_one [] = []
one_by_one (row ∷ rows) = ((pos 0, row) ∷ []) ∷ one_by_one rows

module _ {Outer Inner : Type 0} (merge : List (ℤ × Outer) → List (ℤ × Inner) → List (Outer × Inner))
    (merged : (lefts : List (ℤ × Outer)) (rights : List (ℤ × Inner))
      → merge lefts rights ≡ index_matches lefts rights)
    (predicate : Outer × Inner → Bool) where
  inner_exec-row_pairs :
      (left : Outer) (rights : List Inner)
      → rows_of (inner_exec merge (some predicate) ((pos 0, left) ∷ []) (one_by_one rights))
        ≡ filter predicate (row_pairs left rights)
  unfolding inner_exec apply_predicate row_pairs index_matches matching
  inner_exec-row_pairs left [] = refl
  inner_exec-row_pairs left (right ∷ rights) =
      let following = inner_exec merge (some predicate) ((pos 0, left) ∷ []) (one_by_one rights) in
      rows_of-yield_rows (filter predicate (merge ((pos 0, left) ∷ []) ((pos 0, right) ∷ [])))
        following
      ∙ ap (λ rows. filter predicate rows ++ rows_of following)
          (merged ((pos 0, left) ∷ []) ((pos 0, right) ∷ []))
      ∙ ap (◌++◌ (filter predicate ((left, right) ∷ []))) (inner_exec-row_pairs left rights)
      ∙ sym (filter-append predicate ((left, right) ∷ []) (row_pairs left rights))

  -- A nested loop join lets through what its predicate keeps of all pairs of an outer and an inner
  -- row, in the order of the outer rows, where every batch has one row and its index is 0, and
  -- pandas joins on the index as it documents it.
  pub nested_loop_exec-row_product :
      (lefts : List Outer) (rights : List Inner)
      → rows_of (nested_loop_exec merge (some predicate) (one_by_one lefts) (one_by_one rights))
        ≡ filter predicate (row_product lefts rights)
  unfolding nested_loop_exec row_product
  nested_loop_exec-row_product [] rights = refl
  nested_loop_exec-row_product (left ∷ lefts) rights =
      rows_of-rows_of (inner_exec merge (some predicate) ((pos 0, left) ∷ []) (one_by_one rights))
        (nested_loop_exec merge (some predicate) (one_by_one lefts) (one_by_one rights))
      ∙ ap₂ ◌++◌ (inner_exec-row_pairs left rights) (nested_loop_exec-row_product lefts rights)
      ∙ sym (filter-append predicate (row_pairs left rights) (row_product lefts rights))
