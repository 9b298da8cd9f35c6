-- ===== src/Examples/Executors.antt =====
-- The theorems on the executors, at batches of numbers.
use eva.Executor.Batches.{rows_of, slice_of}
use eva.Executor.GroupBy.{segments, groupby_exec, AllOfLength, groupby_exec-segments}
use eva.Executor.HashJoin.{
  apply_predicate, build_exec, hash_join_exec, matching, index_matches, row_product,
  hash_join_exec-row_product,
}
use eva.Executor.Limit.{limit_exec, limit_exec-take}
use eva.Executor.NestedLoopJoin.{
  predicate_exec, inner_exec, nested_loop_exec, one_by_one, nested_loop_exec-row_product,
}
use eva.Executor.OrderBy.{orderby_exec, orderby_exec-sorted}
use eva.Executor.Sample.{sample_exec, sample_exec-every}
use eva.Prelude.{
  ℕ, ◌<◌, ◌≡◌, refl, Bool, true, some, List, [], ◌∷◌, ◌++◌, map, arith, ◌==◌, length, take, filter,
  every_from,
}
use eva.Prelude.Int.{ℤ, pos, ◌-ℤ◌}
use eva.Prelude.Result.{Result, ok}

abbrev two_batches : List (List ℕ)
two_batches = (1 ∷ 2 ∷ 3 ∷ []) ∷ (4 ∷ 5 ∷ []) ∷ []

limit_4 : limit_exec 4 two_batches ≡ ok ((1 ∷ 2 ∷ 3 ∷ []) ∷ (4 ∷ []) ∷ [])
unfolding limit_exec slice_of
limit_4 = refl

limit_exec-take_example :
    (out : List (List ℕ)) × (limit_exec 4 two_batches ≡ ok out)
    × (rows_of out ≡ take 4 (rows_of two_batches))
limit_exec-take_example = limit_exec-take 4 two_batches (omega arith)

sample_2 : sample_exec 2 0 two_batches ≡ ok ((1 ∷ 3 ∷ []) ∷ (5 ∷ []) ∷ [])
unfolding sample_exec every_from ◌-ℤ◌
sample_2 = refl

sample_exec-every_example :
    (out : List (List ℕ)) × (sample_exec 2 0 two_batches ≡ ok out)
    × (rows_of out ≡ every_from 0 2 (rows_of two_batches))
sample_exec-every_example = sample_exec-every 2 0 two_batches (omega arith)

groups_of_2 : groupby_exec 2 [] two_batches ≡ ok ((1 ∷ 2 ∷ []) ∷ (3 ∷ 4 ∷ []) ∷ [])
unfolding groupby_exec segments slice_of
groups_of_2 = refl

groupby_exec-segments_example :
    (out : List (List ℕ)) × (dangling : List ℕ) × (groupby_exec 2 [] two_batches ≡ ok out)
    × AllOfLength 2 out
    × (length dangling < 2)
    × (rows_of out ++ dangling ≡ rows_of two_batches)
groupby_exec-segments_example = groupby_exec-segments 2 [] two_batches (omega arith) (omega arith)

-- a sort that puts the rows of `two_batches` in descending order
abbrev reversed : List ℕ → Result (List ℕ)
reversed rows = ok (turned rows [])
  where
    turned : List ℕ → List ℕ → List ℕ
    turned [] others = others
    turned (row ∷ rest) others = turned rest (row ∷ others)

orderby_exec-sorted_example :
    (out : List (List ℕ)) × ((orderby_exec reversed [] two_batches).1 ≡ ok out)
    × (map length out ≡ map length two_batches)
    × (rows_of out ≡ 5 ∷ 4 ∷ 3 ∷ 2 ∷ 1 ∷ [])
orderby_exec-sorted_example =
    orderby_exec-sorted reversed two_batches (5 ∷ 4 ∷ 3 ∷ 2 ∷ 1 ∷ [])
      (omega arith, (omega arith, tt)) (omega arith) refl refl

abbrev equal_rows : ℕ × ℕ → Bool
equal_rows (left, right) = left == right

abbrev one_hash : ℕ → ℤ
one_hash key = pos 0

abbrev same_row : ℕ → ℕ
same_row row = row

abbrev both_rows : ℕ × ℕ → ℕ × ℕ
both_rows row = row

equal_rows-equi :
    (left right : ℕ) → equal_rows (left, right) ≡ true → same_row left ≡ same_row right
equal_rows-equi left right h = ground arith

hash_join_exec-row_product_example :
    (build_table : List (List (ℤ × ℕ))) × (build_exec one_hash same_row ([] ∷ (2 ∷ 4 ∷ []) ∷ [])
      ≡ ok build_table)
    × (rows_of (
          hash_join_exec index_matches one_hash same_row
            (some equal_rows)
            both_rows
            build_table
            two_batches)
        ≡ map both_rows (filter equal_rows (row_product (rows_of two_batches) (2 ∷ 4 ∷ []))))
hash_join_exec-row_product_example =
    hash_join_exec-row_product index_matches (λ lefts rights. refl) one_hash same_row same_row
      equal_rows both_rows equal_rows-equi ([] ∷ (2 ∷ 4 ∷ []) ∷ []) two_batches refl

nested_loop_exec-row_product_example :
    rows_of (
      nested_loop_exec index_matches
        (some equal_rows)
        (one_by_one (1 ∷ 2 ∷ []))
        (one_by_one (2 ∷ 1 ∷ [])))
    ≡ filter equal_rows (row_product (1 ∷ 2 ∷ []) (2 ∷ 1 ∷ []))
nested_loop_exec-row_product_example =
    nested_loop_exec-row_product index_matches (λ lefts rights. refl) equal_rows (1 ∷ 2 ∷ [])
      (2 ∷ 1 ∷ [])

-- the same rows in one batch on each side: no pair of rows at one index is equal
pairs_by_position :
    nested_loop_exec index_matches
      (some equal_rows)
      (((pos 0, 1) ∷ (pos 1, 2) ∷ []) ∷ [])
      (((pos 0, 2) ∷ (pos 1, 1) ∷ []) ∷ [])
    ≡ []
unfolding nested_loop_exec inner_exec apply_predicate index_matches matching
pairs_by_position = refl

kept_rows : predicate_exec (some (λ row. row == 4)) two_batches ≡ (4 ∷ []) ∷ []
unfolding predicate_exec apply_predicate
kept_rows = refl
