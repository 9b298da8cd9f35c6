-- ===== src/Executor/HashJoin.antt =====
-- executor/join_build_executor.py, executor/hash_join_executor.py, and what they call of
-- executor/executor_utils.py and models/storage/batch.py.
use eva.Executor.Batches.{rows_of, append_nil, append_assoc, append_assoc}
use eva.Executor.GroupBy.{is_empty}
use eva.Expression.FunctionCache.Defs.{merge}
use eva.Prelude.{
  ◌≡◌, refl, sym, ap, ap₂, ◌∙◌, inl, inr, Bool, true, false, Option, none, some, List, [], ◌∷◌,
  ◌++◌, map, arith, if◌then◌else◌, Bool-cases, filter, filter-append,
}
use eva.Prelude.Int.{ℤ, eqb_ℤ}
use eva.Prelude.Result.{key_error, Result, err, ok}
use mathlib.Core.List.{map-append}

module _ {A : Type 0} where
  -- `apply_predicate`: a missing predicate lets all rows through
  unfoldable pub apply_predicate : Option (A → Bool) → List A → List A
  apply_predicate none batch = batch
  apply_predicate (some predicate) batch = filter predicate batch

  -- `Batch.reassign_indices_to_hash`: every row with its index
  unfoldable reassign_indices_to_hash :
      {Key : Type 0} → (Key → ℤ) → (A → Key) → List A → List (ℤ × A)
  reassign_indices_to_hash hash key [] = []
  reassign_indices_to_hash hash key (row ∷ rows) =
      (hash (key row), row) ∷ reassign_indices_to_hash hash key rows

  -- the batches that are not empty
  abbrev pub not_empty : List (List A) → List (List A)
  not_empty [] = []
  not_empty (batch ∷ batches) =
      if is_empty batch then not_empty batches else batch ∷ not_empty batches

  rows_of-not_empty : (batches : List (List A)) → rows_of (not_empty batches) ≡ rows_of batches
  rows_of-not_empty [] = refl
  rows_of-not_empty ([] ∷ batches) = rows_of-not_empty batches
  rows_of-not_empty ((x ∷ xs) ∷ batches) = ap (λ rows. x ∷ xs ++ rows) (rows_of-not_empty batches)

eqb_ℤ-refl : (a : ℤ) → eqb_ℤ a a ≡ true
eqb_ℤ-refl a = ground arith

module _ {Key Build : Type 0} where
  -- `BuildJoinExecutor.exec`: a table without rows has no column for the keys
  unfoldable pub build_exec :
      (Key → ℤ) → (Build → Key) → List (List Build) → Result (List (List (ℤ × Build)))
  unfolding reassign_indices_to_hash
  build_exec hash build_key batches =
      let cumm_batches : List Build = rows_of (not_empty batches) in
      if is_empty cumm_batches
      then err key_error
      else ok (reassign_indices_to_hash hash build_key cumm_batches ∷ [])

module _ {Key Probe Build Out : Type 0} where
  -- the inner loop of `HashJoinExecutor.exec`
  unfoldable probe_exec :
      (List (ℤ × Probe) → List (ℤ × Build) → List (Probe × Build))
      → (Key → ℤ)
      → (Probe → Key)
      → Option (Probe × Build → Bool)
      → (Probe × Build → Out)
      → List (ℤ × Build)
      → List (List Probe)
      → List (List Out)
  probe_exec merge hash probe_key predicate project build_batch [] = []
  probe_exec merge hash probe_key predicate project build_batch (probe_batch ∷ batches) =
      map project (
        apply_predicate predicate
          (merge (reassign_indices_to_hash hash probe_key probe_batch) build_batch))
      ∷ probe_exec merge hash probe_key predicate project build_batch batches

  -- the outer loop
  unfoldable pub hash_join_exec :
      (List (ℤ × Probe) → List (ℤ × Build) → List (Probe × Build))
      → (Key → ℤ)
      → (Probe → Key)
      → Option (Probe × Build → Bool)
      → (Probe × Build → Out)
      → List (List (ℤ × Build))
      → List (List Probe)
      → List (List Out)
  unfolding probe_exec apply_predicate reassign_indices_to_hash
  hash_join_exec merge hash probe_key predicate project [] probe_table = []
  hash_join_exec merge hash probe_key predicate project (build_batch ∷ build_table) probe_table =
      probe_exec merge hash probe_key predicate project build_batch probe_table
      ++ hash_join_exec merge hash probe_key predicate project build_table probe_table

module _ {Probe Build : Type 0} where
  -- a row with each of the rows that have its index
  unfoldable pub matching : ℤ → Probe → List (ℤ × Build) → List (Probe × Build)
  matching index left [] = []
  matching index left ((other_index, right) ∷ rows) =
      if eqb_ℤ index other_index
      then (left, right) ∷ matching index left rows
      else matching index left rows

  -- an inner join on the index, in the order of the left rows
  unfoldable pub index_matches : List (ℤ × Probe) → List (ℤ × Build) → List (Probe × Build)
  unfolding matching
  index_matches [] rights = []
  index_matches ((index, left) ∷ lefts) rights =
      matching index left rights ++ index_matches lefts rights

  -- a row with each of some rows
  unfoldable pub row_pairs : Probe → List Build → List (Probe × Build)
  row_pairs left [] = []
  row_pairs left (right ∷ rights) = (left, right) ∷ row_pairs left rights

  -- every row with every row
  unfoldable pub row_product : List Probe → List Build → List (Probe × Build)
  unfolding row_pairs
  row_product [] rights = []
  row_product (left ∷ lefts) rights = row_pairs left rights ++ row_product lefts rights

  filter-matching :
      {Key : Type 0} (hash : Key → ℤ) (probe_key : Probe → Key) (build_key : Build → Key)
      (predicate : Probe × Build → Bool)
      → ((left : Probe) (right : Build)
          → predicate (left, right) ≡ true
          → probe_key left ≡ build_key right)
      → (left : Probe) (rights : List Build)
      → filter predicate
          (matching (hash (probe_key left)) left (reassign_indices_to_hash hash build_key rights))
        ≡ filter predicate (row_pairs left rights)
  unfolding matching reassign_indices_to_hash row_pairs
  filter-matching hash probe_key build_key predicate h left [] = refl
  filter-matching hash probe_key build_key predicate h left (right ∷ rights) =
      let rest = filter-matching hash probe_key build_key predicate h left rights in
      elim (Bool-cases (eqb_ℤ (hash (probe_key left)) (hash (build_key right)))) [
        | inl same ↦ rw same (elim (Bool-cases (predicate (left, right))) [
          | inl e ↦ rw e (ap (◌∷◌ (left, right)) rest)
          | inr e ↦ rw e rest
        ])
        | inr different ↦ elim (Bool-cases (predicate (left, right))) [
          | inl e ↦
              let equal = eqb_ℤ-refl (hash (build_key right)) in
              let moved = ap (λ key. eqb_ℤ (hash key) (hash (build_key right))) (h left right e) in
              absurd (cc)
          | inr e ↦ rw (different, e) rest
        ]
      ]

  filter-index_matches :
      {Key : Type 0} (hash : Key → ℤ) (probe_key : Probe → Key) (build_key : Build → Key)
      (predicate : Probe × Build → Bool)
      → ((left : Probe) (right : Build)
          → predicate (left, right) ≡ true
          → probe_key left ≡ build_key right)
      → (lefts : List Probe) (rights : List Build)
      → filter predicate (
          index_matches
            (reassign_indices_to_hash hash probe_key lefts)
            (reassign_indices_to_hash hash build_key rights))
        ≡ filter predicate (row_product lefts rights)
  unfolding index_matches reassign_indices_to_hash row_product
  filter-index_matches hash probe_key build_key predicate h [] rights = refl
  filter-index_matches hash probe_key build_key predicate h (left ∷ lefts) rights =
      let indexed = reassign_indices_to_hash hash build_key rights in
      filter-append predicate (matching (hash (probe_key left)) left indexed)
        (index_matches (reassign_indices_to_hash hash probe_key lefts) indexed)
      ∙ ap₂ ◌++◌ (filter-matching hash probe_key build_key predicate h left rights)
          (filter-index_matches hash probe_key build_key predicate h lefts rights)
      ∙ sym (filter-append predicate (row_pairs left rights) (row_product lefts rights))

  row_product-append :
      (lefts more : List Probe) (rights : List Build)
      → row_product (lefts ++ more) rights ≡ row_product lefts rights ++ row_product more rights
  unfolding row_product
  row_product-append [] more rights = refl
  row_product-append (left ∷ lefts) more rights =
      ap (◌++◌ (row_pairs left rights)) (row_product-append lefts more rights)
      ∙ sym (
          append_assoc (row_pairs left rights) (row_product lefts rights) (row_product more rights))

module _ {Key Probe Build Out : Type 0}
    (merge : List (ℤ × Probe) → List (ℤ × Build) → List (Probe × Build))
    (merged : (lefts : List (ℤ × Probe)) (rights : List (ℤ × Build))
      → merge lefts rights ≡ index_matches lefts rights)
    (hash : Key → ℤ) (probe_key : Probe → Key) (build_key : Build → Key)
    (predicate : Probe × Build → Bool) (project : Probe × Build → Out)
    (equi : (left : Probe) (right : Build)
      → predicate (left, right) ≡ true
      → probe_key left ≡ build_key right) where
  probe_exec-row_product :
      (rights : List Build) (probe_table : List (List Probe))
      → rows_of (
          probe_exec merge hash probe_key
            (some predicate)
            project
            (reassign_indices_to_hash hash build_key rights)
            probe_table)
        ≡ map project (filter predicate (row_product (rows_of probe_table) rights))
  unfolding probe_exec row_product apply_predicate
  probe_exec-row_product rights [] = refl
  probe_exec-row_product rights (probe_batch ∷ batches) =
      ap₂ (λ front back. map project (filter predicate front) ++ back)
        (merged (reassign_indices_to_hash hash probe_key probe_batch)
          (reassign_indices_to_hash hash build_key rights))
        (probe_exec-row_product rights batches)
      ∙ ap
          (λ front.
            map project front
            ++ map project (filter predicate (row_product (rows_of batches) rights)))
          (filter-index_matches hash probe_key build_key predicate equi probe_batch rights)
      ∙ sym (
          ap (λ rows. map project (filter predicate rows))
            (row_product-append probe_batch (rows_of batches) rights)
          ∙ ap (map project) (
              filter-append predicate (row_product probe_batch rights)
                (row_product (rows_of batches) rights))
          ∙ map-append project (filter predicate (row_product probe_batch rights))
              (filter predicate (row_product (rows_of batches) rights)))

  -- A hash join on keys that its predicate makes equal, with any hash, lets through what the
  -- predicate keeps of all pairs of a probe row and a build row, in the order of the probe rows,
  -- where pandas joins on the index as it documents it and the build side has a row.
  pub hash_join_exec-row_product :
      (build_batches : List (List Build)) (probe_table : List (List Probe))
      → is_empty (rows_of build_batches) ≡ false
      → (build_table : List (List (ℤ × Build))) × (build_exec hash build_key build_batches
          ≡ ok build_table)
        × (rows_of
              (hash_join_exec merge hash probe_key (some predicate) project build_table probe_table)
            ≡ map project
                (filter predicate (row_product (rows_of probe_table) (rows_of build_batches))))
  unfolding build_exec hash_join_exec
  hash_join_exec-row_product build_batches probe_table e = (
    reassign_indices_to_hash hash build_key (rows_of build_batches) ∷ [],
    rw (rows_of-not_empty build_batches, e) refl,
    ap rows_of (
          append_nil (
            probe_exec merge hash probe_key (some predicate) project
              (reassign_indices_to_hash hash build_key (rows_of build_batches)) probe_table))
        ∙ probe_exec-row_product (rows_of build_batches) probe_table,
  )
