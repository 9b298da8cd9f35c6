-- ===== src/Optimizer/RewriteRules/ReorderPredicates/Stable.antt =====
-- The order of `ReorderPredicates` is a fixed point, so that the rule is not applied again and again.
use eva.Optimizer.RewriteRules.ReorderPredicates
use eva.Expression.Conjunction.Defs.{to_conjunction_list, conjunction_list_to_expression_tree}
use eva.Expression.Conjunction.RoundTrip.{
  IsAtomic, AllAtomic, AllAtomic-append, to_conjunction_list-AllAtomic, join_all-conjuncts,
}
use eva.Expression.Types.{Expr}
use eva.Optimizer.Memo.Defs.{Memo}
use eva.Optimizer.Operators.{filter_opr, Tree}
use eva.Optimizer.Pushdown.Defs.{partition}
use eva.Optimizer.RewriteRules.ReorderPredicates.{
  contains_func, cost_key, insert_by, sort_by, order, eq_list, above, reordered, eq_list_refl,
}
use eva.Optimizer.RewriteRules.Shared.{node1}
use eva.Prelude.{
  ℕ, String, ◌≡◌, refl, sym, ap, ◌∙◌, inl, inr, Bool, true, false, Option, some, List, [], ◌∷◌,
  ◌++◌, map, arith, leb, if◌then◌else◌, Bool-cases,
}
use eva.Prelude.Result.{ok, ok-injective, >>=-eq-ok}

-- all pass, or all fail, a test
abbrev All : (Expr → Bool) → Bool → List Expr → Type 0
All test b [] = Unit
All test b (e ∷ es) = (test e ≡ b) × All test b es

partition-All :
    (test : Expr → Bool) (es : List Expr)
    → All test true (partition test es).0 × All test false (partition test es).1
unfolding partition
partition-All test [] = (tt, tt)
partition-All test (e ∷ es) = elim (Bool-cases (test e)) [
  | inl h ↦ rw h ((h, (partition-All test es).0), (partition-All test es).1)
  | inr h ↦ rw h ((partition-All test es).0, (h, (partition-All test es).1))
]

-- passing ones after failing ones are divided there
partition-append :
    (test : Expr → Bool) (xs ys : List Expr)
    → All test false xs
    → All test true ys
    → partition test (xs ++ ys) ≡ (ys, xs)
unfolding partition
partition-append test [] [] hx hy = refl
partition-append test [] (y ∷ ys) hx hy = rw (hy.0, partition-append test [] ys tt hy.1)
partition-append test (x ∷ xs) ys hx hy = rw (hx.0, partition-append test xs ys hx.1 hy)

module _ (key : Expr → ℕ) where
  abbrev Sorted : List Expr → Type 0
  Sorted [] = Unit
  Sorted (e ∷ []) = Unit
  Sorted (e ∷ f ∷ es) = (leb (key e) (key f) ≡ true) × Sorted (f ∷ es)

  insert_by-Sorted : (e : Expr) (es : List Expr) → Sorted es → Sorted (insert_by key e es)
  unfolding insert_by
  insert_by-Sorted e [] h = tt
  insert_by-Sorted e (f ∷ []) h = elim (Bool-cases (leb (key e) (key f))) [
    | inl k ↦ rw k (k, tt)
    | inr k ↦ rw k (ground arith, tt)
  ]
  insert_by-Sorted e (f ∷ g ∷ es) h = elim (Bool-cases (leb (key e) (key f))) [
    | inl k ↦ rw k (k, h)
    | inr k ↦ rw k (later (insert_by-Sorted e (g ∷ es) h.1) k h)
  ]
    where
      later :
          Sorted (insert_by key e (g ∷ es))
          → leb (key e) (key f) ≡ false
          → Sorted (f ∷ g ∷ es)
          → Sorted (f ∷ insert_by key e (g ∷ es))
      later r k h = elim (Bool-cases (leb (key e) (key g))) [
        | inl q ↦ rw q (ground arith, (q, h.1))
        | inr q ↦ rw q (h.0, (rw q at r))
      ]

  sort_by-Sorted : (es : List Expr) → Sorted (sort_by key es)
  unfolding sort_by
  sort_by-Sorted [] = tt
  sort_by-Sorted (e ∷ es) = insert_by-Sorted e (sort_by key es) (sort_by-Sorted es)

  sort_by-id : (es : List Expr) → Sorted es → sort_by key es ≡ es
  unfolding sort_by insert_by
  sort_by-id [] h = refl
  sort_by-id (e ∷ []) h = refl
  sort_by-id (e ∷ f ∷ es) h = rw (sort_by-id (f ∷ es) h.1) (rw h.0)

  All-insert_by :
      (test : Expr → Bool) (b : Bool) (e : Expr) (es : List Expr)
      → test e ≡ b
      → All test b es
      → All test b (insert_by key e es)
  unfolding insert_by
  All-insert_by test b e [] h k = (h, tt)
  All-insert_by test b e (f ∷ es) h k = elim (Bool-cases (leb (key e) (key f))) [
    | inl q ↦ rw q (h, k)
    | inr q ↦ rw q (k.0, All-insert_by test b e es h k.1)
  ]

  All-sort_by :
      (test : Expr → Bool) (b : Bool) (es : List Expr) → All test b es → All test b (sort_by key es)
  unfolding sort_by
  All-sort_by test b [] h = tt
  All-sort_by test b (e ∷ es) h =
      All-insert_by test b e (sort_by key es) h.0 (All-sort_by test b es h.1)

  order_idem :
      (test : Expr → Bool) (es : List Expr) → order test key (order test key es) ≡ order test key es
  unfolding order
  order_idem test es =
      let parts : List Expr × List Expr = partition test es in
      let (pass, fail) = partition-All test es in
      let again : partition test (parts.1 ++ sort_by key parts.0) ≡ (sort_by key parts.0, parts.1) =
        partition-append test parts.1 (sort_by key parts.0) fail
          (All-sort_by test true parts.0 pass) in
      rw again (ap (λ l. parts.1 ++ l) (sort_by-id (sort_by key parts.0) (sort_by-Sorted parts.0)))

  -- sorting keeps the conjuncts atomic
  AllAtomic-insert_by :
      (e : Expr) (es : List Expr) → IsAtomic e → AllAtomic es → AllAtomic (insert_by key e es)
  unfolding insert_by
  AllAtomic-insert_by e [] h k = (h, tt)
  AllAtomic-insert_by e (f ∷ es) h k = elim (Bool-cases (leb (key e) (key f))) [
    | inl q ↦ rw q (h, k)
    | inr q ↦ rw q (k.0, AllAtomic-insert_by e es h k.1)
  ]

  AllAtomic-sort_by : (es : List Expr) → AllAtomic es → AllAtomic (sort_by key es)
  unfolding sort_by
  AllAtomic-sort_by [] h = tt
  AllAtomic-sort_by (e ∷ es) h =
      AllAtomic-insert_by e (sort_by key es) h.0 (AllAtomic-sort_by es h.1)

  AllAtomic-order :
      (test : Expr → Bool) (es : List Expr) → AllAtomic es → AllAtomic (order test key es)
  unfolding order
  AllAtomic-order test es h =
      AllAtomic-append (partition test es).1 (sort_by key (partition test es).0) (parts es h).1
        (AllAtomic-sort_by (partition test es).0 (parts es h).0)
    where
      parts :
          (es : List Expr)
          → AllAtomic es
          → AllAtomic (partition test es).0 × AllAtomic (partition test es).1
      parts [] h = (tt, tt)
      parts (e ∷ es) h = elim (Bool-cases (test e)) [
        | inl q ↦ rw q ((h.0, (parts es h.1).0), (parts es h.1).1)
        | inr q ↦ rw q ((parts es h.1).0, (h.0, (parts es h.1).1))
      ]

same_filter :
    (t after : Expr) (child : Tree) → above child (some t) ≡ above child (some after) → t ≡ after
same_filter t after child h = cc

-- a filter that was built from a list in order has that list for its conjuncts
again :
    (catalog : String → Option ℕ) (after : Expr) (child : Tree) (m : Memo) (xs : List Expr)
    (b : Bool)
    → AllAtomic xs
    → order contains_func (cost_key catalog) xs ≡ xs
    → (if b then [] else above child (conjunction_list_to_expression_tree (map some xs)))
      ≡ above child (some after)
    → ReorderPredicates.apply catalog (node1 (filter_opr after) child) m ≡ ok []
unfolding ReorderPredicates.apply conjunction_list_to_expression_tree reordered
again catalog after child m xs true at fixed e = absurd (cc)
again catalog after child m [] false at fixed e = absurd (cc)
again catalog after child m (x ∷ xs) false at fixed e =
    let (t, u, v) = join_all-conjuncts x (x ∷ []) xs at.0 at.1 in
    let same : t ≡ after = same_filter t after child (ap (above child) (sym u) ∙ e) in
    let conjuncts : to_conjunction_list after ≡ ok (x ∷ xs) =
      ap to_conjunction_list (sym same) ∙ v in
    rw (conjuncts, fixed, eq_list_refl) refl

-- The plan that `ReorderPredicates` returns is not changed by the rule again: it returns no plan for it.
pub apply_reorder_again :
    (catalog : String → Option ℕ) (predicate after : Expr) (child : Tree) (m : Memo)
    → ReorderPredicates.apply catalog (node1 (filter_opr predicate) child) m
      ≡ ok (node1 (filter_opr after) child ∷ [])
    → ReorderPredicates.apply catalog (node1 (filter_opr after) child) m ≡ ok []
unfolding ReorderPredicates.apply reordered
apply_reorder_again catalog predicate after child m h =
    let (es, p, q) = >>=-eq-ok (to_conjunction_list predicate) _ h in
    again catalog after child m (order contains_func (cost_key catalog) es)
      (eq_list (order contains_func (cost_key catalog) es) es)
      (AllAtomic-order (cost_key catalog) contains_func es
        (to_conjunction_list-AllAtomic predicate es p))
      (order_idem (cost_key catalog) contains_func es) (ok-injective q)
