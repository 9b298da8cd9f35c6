-- ===== src/Expression/FunctionCache/Agreement.antt =====
-- With a cache that holds outcomes of the function, the outcome is that of the function on every row.
use eva.Expression.FunctionCache.Defs.{
  KvCache, RowFunction, select, is_missing, any_true, count_misses, merge, Evaluation, set_all,
  keys_of, apply_cached, apply_function_expression,
}
use eva.Prelude.{
  ◌≤◌, ◌≡◌, refl, sym, ap, ◌∙◌, inl, inr, Bool, true, false, Option, some, List, [], ◌∷◌, map,
  arith, ◌==◌, Bool-cases, Option-cases, length, length-map,
}
use eva.Prelude.Result.{Result, ok}

select-map :
    {X Y : Type 0} (f : X → Y) (ms : List Bool) (xs : List X)
    → select ms (map f xs) ≡ map f (select ms xs)
unfolding select
select-map f [] xs = refl
select-map f (m ∷ ms) [] = refl
select-map f (true ∷ ms) (x ∷ xs) = ap (◌∷◌ (f x)) (select-map f ms xs)
select-map f (false ∷ ms) (x ∷ xs) = select-map f ms xs

pub length-select : {X : Type 0} (ms : List Bool) (xs : List X) → length (select ms xs) ≤ length xs
unfolding select
length-select [] xs = omega arith
length-select (m ∷ ms) [] = omega arith
length-select (true ∷ ms) (x ∷ xs) = omega (arith, length-select ms xs)
length-select (false ∷ ms) (x ∷ xs) = omega (arith, length-select ms xs)

pub length-select_misses :
    {X : Type 0} (ms : List Bool) (xs : List X)
    → length ms ≡ length xs
    → length (select ms xs) ≡ count_misses ms
unfolding select
length-select_misses [] xs h = refl
length-select_misses (m ∷ ms) [] h = absurd (omega arith)
length-select_misses (true ∷ ms) (x ∷ xs) h =
    omega (arith, length-select_misses ms xs (omega arith))
length-select_misses (false ∷ ms) (x ∷ xs) h = length-select_misses ms xs (omega arith)

module _ {A K V : Type 0} (cache : KvCache K V) (func : RowFunction A V) (outcome : K → V) where
  open cache use {State, get, set}
  open func use {ObjectState, call}

  -- what the cache holds for a key is the outcome of the key
  abbrev pub Agrees : State → Type 0
  Agrees s = (k : K) (v : V) → get s k ≡ some v → v ≡ outcome k

  Agrees-set : (s : State) (k : K) → Agrees s → Agrees (set s k (outcome k))
  Agrees-set s k agrees q w h = elim (cache.get_set s k q (outcome k) w h) [
    | inl here ↦ here.1 ∙ ap outcome (sym here.0)
    | inr old ↦ agrees q w old
  ]

  Agrees-set_all :
      (s : State) (ks : List K) → Agrees s → Agrees (set_all cache func s ks (map outcome ks))
  unfolding set_all
  Agrees-set_all s [] agrees = agrees
  Agrees-set_all s (k ∷ ks) agrees = Agrees-set_all (set s k (outcome k)) ks (Agrees-set s k agrees)

  -- the stored results and those of the missing rows, put together
  merge_lem :
      (s : State) (ks : List K)
      → Agrees s
      → merge (map (get s) ks) (map outcome (select (map is_missing (map (get s) ks)) ks))
        ≡ ok (map (λ k. some (outcome k)) ks)
  unfolding merge select
  merge_lem s [] agrees = refl
  merge_lem s (k ∷ ks) agrees = elim (Option-cases (get s k)) [
    | inl e ↦ rw (e, merge_lem s ks agrees) refl
    | inr (v, e) ↦
        rw (e, merge_lem s ks agrees)
          (ap (λ w. ok (some w ∷ map (λ q. some (outcome q)) ks)) (agrees k v e))
  ]

  found_lem :
      (s : State) (ks : List K)
      → Agrees s
      → any_true (map is_missing (map (get s) ks)) ≡ false
      → map (get s) ks ≡ map (λ k. some (outcome k)) ks
  found_lem s [] agrees h = refl
  found_lem s (k ∷ ks) agrees h = elim (Option-cases (get s k)) [
    | inl e ↦ absurd (let j : true ≡ false = rw e at h in cc)
    | inr (v, e) ↦
        let rest : any_true (map is_missing (map (get s) ks)) ≡ false = rw e at h in
        rw (e, found_lem s ks agrees rest, agrees k v e) refl
  ]

  -- the keys determine the outcomes of the rows
  abbrev pub Determines : List K → List A → Type 0
  Determines ks xs = map outcome ks ≡ map func.row xs

  missing_results :
      (o : ObjectState) (ms : List Bool) (ks : List K) (xs : List A)
      → Determines ks xs
      → (call o (select ms xs)).1 ≡ map outcome (select ms ks)
  missing_results o ms ks xs same =
      func.by_rows o (select ms xs)
      ∙ sym (select-map func.row ms xs)
      ∙ ap (select ms) (sym same)
      ∙ select-map outcome ms ks

  outcomes_of_rows :
      (ks : List K) (xs : List A)
      → Determines ks xs
      → map (λ k. some (outcome k)) ks ≡ map (λ x. some (func.row x)) xs
  outcomes_of_rows ks xs same =
      sym (map-after outcome ks) ∙ ap (map some) same ∙ map-after func.row xs
    where
      map-after :
          {X : Type 0} (f : X → V) (ys : List X) → map some (map f ys) ≡ map (λ y. some (f y)) ys
      map-after f [] = refl
      map-after f (y ∷ ys) = ap (◌∷◌ (some (f y))) (map-after f ys)

  -- what an evaluation promises: the outcomes of all rows in their order, and a cache that still holds
  -- outcomes only
  pub record IsRight (xs : List A) (m : Result (Evaluation cache func)) : Type 0 where
    pub result : Evaluation cache func
    pub after : State
    pub returned : m ≡ ok result
    pub right : result.results ≡ map (λ x. some (func.row x)) xs
    pub stored : result.store ≡ some after
    pub agreement : Agrees after

  apply_cached-IsRight :
      (xs : List A) (ks : List K) (s : State) (o : ObjectState)
      → Agrees s
      → Determines ks xs
      → IsRight xs (apply_cached cache func xs ks s o)
  unfolding apply_cached
  apply_cached-IsRight xs ks s o agrees same =
      let found : List (Option V) = map (get s) ks in
      let ms : List Bool = map is_missing found in
      elim (Bool-cases (any_true ms)) [
        | inl e ↦ record {
          result = record {
            results = map (λ k. some (outcome k)) ks;
            store = some (set_all cache func s (select ms ks) (map outcome (select ms ks)));
            cache_misses = count_misses ms;
            object_state = (call o (select ms xs)).0;
          };
          after = set_all cache func s (select ms ks) (map outcome (select ms ks));
          returned = rw (e, missing_results o ms ks xs same, merge_lem s ks agrees) refl;
          right = outcomes_of_rows ks xs same;
          stored = refl;
          agreement = Agrees-set_all s (select ms ks) agrees;
        }
        | inr e ↦ record {
          result = record {
            results = found;
            store = some s;
            cache_misses = count_misses ms;
            object_state = o;
          };
          after = s;
          returned = rw e refl;
          right = found_lem s ks agrees e ∙ outcomes_of_rows ks xs same;
          stored = refl;
          agreement = agrees;
        }
      ]

  -- With a cache that holds outcomes of the function only, and as many keys as rows, each of which
  -- determines the outcome of its row, the evaluation returns the outcome of every row, in their
  -- order, and leaves such a cache, however entries are evicted and whatever the state of the
  -- function's object.
  pub apply_function_expression-IsRight :
      (to_key : A → K) (xs : List A) (ks : List K) (s : State) (o : ObjectState)
      → Agrees s
      → Determines ks xs
      → IsRight xs (apply_function_expression cache func to_key xs (some ks) (length xs) (some s) o)
  unfolding apply_function_expression keys_of
  apply_function_expression-IsRight to_key xs ks s o agrees same =
      let sizes : (length ks == length xs) ≡ true = same_length in
      rw sizes (apply_cached-IsRight xs ks s o agrees same)
    where
      same_length : (length ks == length xs) ≡ true
      same_length =
          let lengths : length ks ≡ length xs =
            sym (length-map ks outcome) ∙ ap length same ∙ length-map xs func.row in
          ground (arith, lengths)
