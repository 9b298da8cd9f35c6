-- ===== src/Examples/FunctionCache.antt =====
-- The theorems on the cache of a function, for the function that doubles a number, and a cache that
-- is a list of entries and never evicts.
use eva.Expression.FunctionCache.Agreement.{Agrees, IsRight, apply_function_expression-IsRight}
use eva.Expression.FunctionCache.Defs.{KvCache, RowFunction, Evaluation, apply_function_expression}
use eva.Expression.FunctionCache.Misses.{CallsOnMisses, apply_function_expression-CallsOnMisses}
use eva.Prelude.{
  ℕ, ◌+◌, ◌≡◌, refl, sym, ap, ◌∙◌, ◌⊎◌, inl, inr, Option, none, some, List, [], ◌∷◌, map, ◌==◌,
  if◌then◌else◌, ==_iff, Bool-cases,
}
use eva.Prelude.Result.{ok}

abbrev find : List (ℕ × ℕ) → ℕ → Option ℕ
find [] q = none
find ((k, v) ∷ entries) q = if k == q then some v else find entries q

find-put :
    (entries : List (ℕ × ℕ)) (k q : ℕ) (v w : ℕ)
    → find ((k, v) ∷ entries) q ≡ some w
    → ((q ≡ k) × (w ≡ v)) ⊎ (find entries q ≡ some w)
find-put entries k q v w h = elim (Bool-cases (k == q)) [
  | inl e ↦ inl (sym ((==_iff k q).0 e), sym (value (rw e at h)))
  | inr e ↦ inr (rw e at h)
]
  where
    value : {a b : ℕ} → some a ≡ some b → a ≡ b
    value same = cc

abbrev entries_cache : KvCache ℕ ℕ
entries_cache = record {
  State = List (ℕ × ℕ);
  get = find;
  set = λ entries k v. (k, v) ∷ entries;
  get_set = find-put;
}

-- its object remembers the batches that it was called on
abbrev double : RowFunction ℕ ℕ
double = record {
  ObjectState = List (List ℕ);
  call = λ calls xs. (xs ∷ calls, map (λ x. x + x) xs);
  row = λ x. x + x;
  by_rows = λ calls xs. refl;
}

-- the numbers themselves are the keys; 3 is in the cache
abbrev stored : List (ℕ × ℕ)
stored = (3, 6) ∷ []

stored-Agrees : Agrees entries_cache double (λ k. k + k) stored
stored-Agrees k v h = elim (Bool-cases (3 == k)) [
  | inl e ↦ let three : 3 ≡ k = (==_iff 3 k).0 e in sym (value (rw e at h)) ∙ ap (λ m. m + m) three
  | inr e ↦ absurd (let nothing : none ≡ some v = rw e at h in cc)
]
  where
    value : {a b : ℕ} → some a ≡ some b → a ≡ b
    value same = cc

apply_function_expression-IsRight_example :
    IsRight entries_cache double
      (λ k. k + k)
      (3 ∷ 5 ∷ 3 ∷ 7 ∷ [])
      (apply_function_expression entries_cache double
        (λ x. x)
        (3 ∷ 5 ∷ 3 ∷ 7 ∷ [])
        (some (3 ∷ 5 ∷ 3 ∷ 7 ∷ []))
        4
        (some stored)
        [])
apply_function_expression-IsRight_example =
    apply_function_expression-IsRight entries_cache double (λ k. k + k) (λ x. x)
      (3 ∷ 5 ∷ 3 ∷ 7 ∷ []) (3 ∷ 5 ∷ 3 ∷ 7 ∷ []) stored [] stored-Agrees refl

apply_function_expression-CallsOnMisses_example :
    CallsOnMisses entries_cache double [] (5 ∷ 7 ∷ []) (
      apply_function_expression entries_cache double
        (λ x. x)
        (3 ∷ 5 ∷ 3 ∷ 7 ∷ [])
        (some (3 ∷ 5 ∷ 3 ∷ 7 ∷ []))
        4
        (some stored)
        [])
apply_function_expression-CallsOnMisses_example =
    apply_function_expression-CallsOnMisses entries_cache double (λ x. x) (3 ∷ 5 ∷ 3 ∷ 7 ∷ [])
      (3 ∷ 5 ∷ 3 ∷ 7 ∷ []) stored [] refl

abbrev evaluated : Evaluation entries_cache double
evaluated = record {
  results = some 6 ∷ some 10 ∷ some 6 ∷ some 14 ∷ [];
  store = some ((7, 14) ∷ (5, 10) ∷ (3, 6) ∷ []);
  cache_misses = 2;
  object_state = (5 ∷ 7 ∷ []) ∷ [];
}

evaluates :
    apply_function_expression entries_cache double
      (λ x. x)
      (3 ∷ 5 ∷ 3 ∷ 7 ∷ [])
      (some (3 ∷ 5 ∷ 3 ∷ 7 ∷ []))
      4
      (some stored)
      []
    ≡ ok evaluated
unfolding apply_function_expression
evaluates = refl
