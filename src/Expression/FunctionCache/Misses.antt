-- ===== src/Expression/FunctionCache/Misses.antt =====
-- Which rows the function is called on.
use eva.Expression.FunctionCache.Agreement.{length-select_misses}
use eva.Expression.FunctionCache.Defs.{
  KvCache, RowFunction, select, is_missing, any_true, count_misses, merge, Evaluation, set_all,
  keys_of, apply_cached, apply_function_expression,
}
use eva.Prelude.{
  ◌<◌, ◌≡◌, refl, sym, ap, ◌∙◌, inl, inr, Bool, true, false, Option, none, some, List, [], ◌∷◌, map,
  arith, ◌==◌, ==_iff, Bool-cases, Option-cases, length, length-map,
}
use eva.Prelude.Result.{Result, ok}

select_none : {X : Type 0} (ms : List Bool) (xs : List X) → any_true ms ≡ false → select ms xs ≡ []
unfolding select
select_none [] xs h = refl
select_none (m ∷ ms) [] h = refl
select_none (true ∷ ms) (x ∷ xs) h = absurd (cc)
select_none (false ∷ ms) (x ∷ xs) h = select_none ms xs h

count_some : (ms : List Bool) → any_true ms ≡ true → 0 < count_misses ms
count_some [] h = absurd (cc)
count_some (true ∷ ms) h = omega arith
count_some (false ∷ ms) h = count_some ms h

-- as many values as places without one can be put in
merge_total :
    {X : Type 0} (found : List (Option X)) (vs : List X)
    → length vs ≡ count_misses (map is_missing found)
    → (merged : List (Option X)) × (merge found vs ≡ ok merged)
unfolding merge
merge_total [] [] h = ([], refl)
merge_total [] (v ∷ vs) h = absurd (omega arith)
merge_total (some w ∷ rs) vs h =
    let (merged, e) = merge_total rs vs h in (some w ∷ merged, rw e refl)
merge_total (none ∷ rs) [] h = absurd (omega arith)
merge_total (none ∷ rs) (v ∷ vs) h =
    let (merged, e) = merge_total rs vs (omega arith) in (some v ∷ merged, rw e refl)

module _ {A K V : Type 0} (cache : KvCache K V) (func : RowFunction A V) where
  open cache use {State, get}
  open func use {ObjectState, call}

  -- the rows whose keys the cache does not have
  abbrev pub rows_not_found : State → List K → List A → List A
  rows_not_found s [] xs = []
  rows_not_found s (k ∷ ks) [] = []
  rows_not_found s (k ∷ ks) (x ∷ xs) =
      let rest = rows_not_found s ks xs in elim (get s k) [ none ↦ x ∷ rest | some v ↦ rest ]

  -- the state of the function's object after one call on some rows, or after none if there are no rows
  abbrev pub after_call : ObjectState → List A → ObjectState
  after_call o [] = o
  after_call o (x ∷ xs) = (call o (x ∷ xs)).0

  select-rows_not_found :
      (s : State) (ks : List K) (xs : List A)
      → select (map is_missing (map (get s) ks)) xs ≡ rows_not_found s ks xs
  unfolding select
  select-rows_not_found s [] xs = refl
  select-rows_not_found s (k ∷ ks) [] = refl
  select-rows_not_found s (k ∷ ks) (x ∷ xs) = elim (Option-cases (get s k)) [
    | inl e ↦ rw (rows_not_found, e, select-rows_not_found s ks xs) refl
    | inr (v, e) ↦ rw (rows_not_found, e, select-rows_not_found s ks xs) refl
  ]

  after_call-some :
      (o : ObjectState) (ys : List A) → 0 < length ys → (call o ys).0 ≡ after_call o ys
  after_call-some o [] h = absurd (omega arith)
  after_call-some o (y ∷ ys) h = refl

  -- what an evaluation does: it returns, has called the function once, on the rows that the cache does
  -- not have, and counts them
  pub record CallsOnMisses (o : ObjectState) (missing : List A) (m : Result (Evaluation cache func))
      : Type 0 where
    pub result : Evaluation cache func
    pub returned : m ≡ ok result
    pub called : result.object_state ≡ after_call o missing
    pub counted : result.cache_misses ≡ length missing

  apply_cached-CallsOnMisses :
      (xs : List A) (ks : List K) (s : State) (o : ObjectState)
      → length ks ≡ length xs
      → CallsOnMisses o (rows_not_found s ks xs) (apply_cached cache func xs ks s o)
  unfolding apply_cached
  apply_cached-CallsOnMisses xs ks s o h =
      let found : List (Option V) = map (get s) ks in
      let ms : List Bool = map is_missing found in
      let missing : List A = select ms xs in
      let same : missing ≡ rows_not_found s ks xs = select-rows_not_found s ks xs in
      let sizes : length ms ≡ length xs = length-map found is_missing ∙ length-map ks (get s) ∙ h in
      let number : length missing ≡ count_misses ms = length-select_misses ms xs sizes in
      elim (Bool-cases (any_true ms)) [
        | inl e ↦
            let answers : length (call o missing).1 ≡ count_misses ms =
              ap length (func.by_rows o missing) ∙ length-map missing func.row ∙ number in
            let (merged, q) = merge_total found (call o missing).1 answers in
            record {
              result = record {
                results = merged;
                store = some (set_all cache func s (select ms ks) (call o missing).1);
                cache_misses = count_misses ms;
                object_state = (call o missing).0;
              };
              returned = rw (e, q) refl;
              called =
                  after_call-some o missing (omega (arith, count_some ms e))
                  ∙ ap (after_call o) same;
              counted = sym number ∙ ap length same;
            }
        | inr e ↦ record {
          result = record {
            results = found;
            store = some s;
            cache_misses = count_misses ms;
            object_state = o;
          };
          returned = rw e refl;
          called = ap (after_call o) (sym (select_none ms xs e) ∙ same);
          counted = sym number ∙ ap length same;
        }
      ]

  -- Whatever the cache holds and with as many keys as rows, the evaluation returns. It has called the
  -- function once, on the rows whose keys were not found, in their order, or not at all if every key
  -- was found: the object of the function, which may change at a call in any way, is in the state
  -- after that call. The evaluation counts these rows as misses.
  pub apply_function_expression-CallsOnMisses :
      (to_key : A → K) (xs : List A) (ks : List K) (s : State) (o : ObjectState)
      → length ks ≡ length xs
      → CallsOnMisses o
          (rows_not_found s ks xs)
          (apply_function_expression cache func to_key xs (some ks) (length xs) (some s) o)
  unfolding apply_function_expression keys_of
  apply_function_expression-CallsOnMisses to_key xs ks s o h =
      let sizes : (length ks == length xs) ≡ true = (==_iff (length ks) (length xs)).1 h in
      rw sizes (apply_cached-CallsOnMisses xs ks s o h)
