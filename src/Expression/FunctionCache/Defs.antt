-- ===== src/Expression/FunctionCache/Defs.antt =====
-- `_apply_function_expression`, on batches as lists of rows. The cache on disk and the function are
-- code of libraries and of users, and parameters.
use eva.Prelude.{
  ℕ, suc, ◌≡◌, ◌⊎◌, Bool, true, false, ◌||◌, Option, none, some, List, [], ◌∷◌, map, ◌==◌,
  if◌then◌else◌, length,
}
use eva.Prelude.Result.{value_error, Result, err, ok, assert, ◌>>=◌, ◌>>◌}

-- `DiskKVCache`, a cache of diskcache. It evicts entries when it is full, at any time; what it
-- returns for a key is a value that was stored under the key.
pub record KvCache (K V : Type 0) : Type 1 where
  pub State : Type 0
  pub get : State → K → Option V
  pub set : State → K → V → State
  pub get_set :
      (s : State) (k q : K) (v w : V)
      → get (set s k v) q ≡ some w
      → ((q ≡ k) × (w ≡ v)) ⊎ (get s q ≡ some w)

-- a function on batches, an object whose state a call may change; whatever the state, it computes each
-- row of the outcome from one row of the arguments
pub record RowFunction (A V : Type 0) : Type 1 where
  pub ObjectState : Type 0
  pub call : ObjectState → List A → ObjectState × List V
  pub row : A → V
  pub by_rows : (o : ObjectState) (xs : List A) → (call o xs).1 ≡ map row xs

-- the rows of a batch at which a mask is `True`
unfoldable pub select {ℓ} : {X : Type ℓ} → List Bool → List X → List X
select [] xs = []
select (m ∷ ms) [] = []
select (m ∷ ms) (x ∷ xs) = if m then x ∷ select ms xs else select ms xs

abbrev pub is_missing {ℓ} : {X : Type ℓ} → Option X → Bool
is_missing none = true
is_missing (some x) = false

-- `cache_miss.any()`
abbrev pub any_true : List Bool → Bool
any_true [] = false
any_true (m ∷ ms) = m || any_true ms

-- `sum(cache_miss)`
abbrev pub count_misses : List Bool → ℕ
count_misses [] = 0
count_misses (m ∷ ms) = if m then suc (count_misses ms) else count_misses ms

-- `results[cache_miss] = cache_miss_results.to_numpy()`, which raises where the numbers differ
unfoldable pub merge {ℓ} : {X : Type ℓ} → List (Option X) → List X → Result (List (Option X))
merge [] [] = ok []
merge [] (v ∷ vs) = err value_error
merge (some w ∷ rs) vs = merge rs vs >>= λ merged. ok (some w ∷ merged)
merge (none ∷ rs) [] = err value_error
merge (none ∷ rs) (v ∷ vs) = merge rs vs >>= λ merged. ok (some v ∷ merged)

module _ {A K V : Type 0} (cache : KvCache K V) (func : RowFunction A V) where
  open cache use {State, get, set}
  open func use {ObjectState, call}

  -- the outcome, the store, the misses that are counted, and the state of the function's object
  pub record Evaluation : Type 0 where
    pub results : List (Option V)
    pub store : Option State
    pub cache_misses : ℕ
    pub object_state : ObjectState

  -- the loop that stores the missing results
  unfoldable pub set_all : State → List K → List V → State
  set_all s [] vs = s
  set_all s (k ∷ ks) [] = s
  set_all s (k ∷ ks) (v ∷ vs) = set_all (set s k v) ks vs

  -- the cache's key expressions evaluated, or else the arguments as keys
  unfoldable pub keys_of : (A → K) → List A → Option (List K) → ℕ → Result (List K)
  keys_of to_key func_args none len_batch = ok (map to_key func_args)
  keys_of to_key func_args (some cache_keys) len_batch =
      assert (length cache_keys == len_batch) >> ok cache_keys

  -- from the first look-up on
  unfoldable pub apply_cached : List A → List K → State → ObjectState → Result Evaluation
  unfolding select merge set_all
  apply_cached func_args cache_keys s o =
      let found : List (Option V) = map (get s) cache_keys in
      let cache_miss : List Bool = map is_missing found in
      let called : ObjectState × List V = call o (select cache_miss func_args) in
      if any_true cache_miss
      then merge found called.1 >>= (λ results. ok (record {
        results = results;
        store = some (set_all s (select cache_miss cache_keys) called.1);
        cache_misses = count_misses cache_miss;
        object_state = called.0;
      }))
      else ok (record {
        results = found;
        store = some s;
        cache_misses = count_misses cache_miss;
        object_state = o;
      })

  -- without a cache the function is called on all rows
  unfoldable pub apply_function_expression :
      (A → K) → List A → Option (List K) → ℕ → Option State → ObjectState → Result Evaluation
  unfolding keys_of apply_cached
  apply_function_expression to_key func_args given_keys len_batch none o = ok (record {
    results = map some (call o func_args).1;
    store = none;
    cache_misses = 0;
    object_state = (call o func_args).0;
  })
  apply_function_expression to_key func_args given_keys len_batch (some s) o =
      keys_of to_key func_args given_keys len_batch >>= λ cache_keys.
      apply_cached func_args cache_keys s o
