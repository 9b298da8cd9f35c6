-- ===== src/Expression/Traversal.antt =====
-- `bfs`, `dfs` and `find_all` of expression/abstract_expression.py. The queue of `bfs` is on fuel: one
-- step for each node.
use eva.Expression.Types.{
  Expr, tuple_value_expression, constant_value_expression, node, Exprs, nil, cons, children,
  to_list,
}
use eva.Prelude.{
  ℕ, zero, suc, ◌+◌, ◌≤◌, ◌≡◌, refl, ap, ◌∙◌, inl, inr, Bool, Option, none, some, List, [], ◌∷◌,
  ◌++◌, arith, if◌then◌else◌, Bool-cases, length,
}

-- the children of each child follow it
unfoldable mutual
  pub dfs : Expr → List Expr
  dfs (tuple_value_expression v) = tuple_value_expression v ∷ []
  dfs (constant_value_expression v) = constant_value_expression v ∷ []
  dfs (node c t r es) = node c t r es ∷ dfs_all es

  pub dfs_all : Exprs → List Expr
  dfs_all nil = []
  dfs_all (cons e es) = dfs e ++ dfs_all es

unfoldable pub yield_node : Expr → Option (List Expr) → Option (List Expr)
yield_node e none = none
yield_node e (some rest) = some (e ∷ rest)

-- the loop over the queue; `none` means that the fuel ran out
unfoldable pub bfs_queue : ℕ → List Expr → Option (List Expr)
unfolding yield_node
bfs_queue n [] = some []
bfs_queue zero (e ∷ queue) = none
bfs_queue (suc n) (e ∷ queue) = yield_node e (bfs_queue n (queue ++ to_list (children e)))

unfoldable pub bfs : ℕ → Expr → Option (List Expr)
unfolding bfs_queue
bfs n e = bfs_queue n (e ∷ [])

unfoldable pub keep : (Expr → Bool) → List Expr → List Expr
keep test [] = []
keep test (e ∷ es) = let rest = keep test es in if test e then e ∷ rest else rest

abbrev keep_found : (Expr → Bool) → Option (List Expr) → Option (List Expr)
keep_found test none = none
keep_found test (some es) = some (keep test es)

-- the nodes of a class
unfoldable pub find_all : (Expr → Bool) → ℕ → Expr → Option (List Expr)
unfolding bfs keep
find_all test n e = keep_found test (bfs n e)

-- the weights of the nodes of a list added up
abbrev pub total : (Expr → ℕ) → List Expr → ℕ
total weight [] = 0
total weight (e ∷ es) = weight e + total weight es

pub total-append :
    (weight : Expr → ℕ) (xs ys : List Expr)
    → total weight (xs ++ ys) ≡ total weight xs + total weight ys
total-append weight [] ys = omega arith
total-append weight (x ∷ xs) ys = omega (arith, total-append weight xs ys)

-- the trees of a queue, each in the order of `dfs`
abbrev forest : List Expr → List Expr
forest [] = []
forest (e ∷ es) = dfs e ++ forest es

forest-append :
    (weight : Expr → ℕ) (xs ys : List Expr)
    → total weight (forest (xs ++ ys)) ≡ total weight (forest xs) + total weight (forest ys)
forest-append weight [] ys = omega arith
forest-append weight (x ∷ xs) ys = omega (
  arith,
  total-append weight (dfs x) (forest (xs ++ ys)),
  total-append weight (dfs x) (forest xs),
  forest-append weight xs ys,
)

dfs_all-forest :
    (weight : Expr → ℕ) (es : Exprs)
    → total weight (dfs_all es) ≡ total weight (forest (to_list es))
unfolding dfs
dfs_all-forest weight nil = refl
dfs_all-forest weight (cons e es) = omega (
  arith,
  total-append weight (dfs e) (dfs_all es),
  total-append weight (dfs e) (forest (to_list es)),
  dfs_all-forest weight es,
)

-- a node weighs what it does, with its children's trees
dfs-children :
    (weight : Expr → ℕ) (e : Expr)
    → total weight (dfs e) ≡ weight e + total weight (forest (to_list (children e)))
unfolding dfs
dfs-children weight (tuple_value_expression v) = refl
dfs-children weight (constant_value_expression v) = refl
dfs-children weight (node c t r es) =
    ap (λ n. weight (node c t r es) + n) (dfs_all-forest weight es)

abbrev one : Expr → ℕ
one e = 1

-- With fuel for every node of the queue the search ends, and visits the nodes of the trees, each as
-- often as they hold it.
bfs_queue-total :
    (n : ℕ) (queue : List Expr)
    → total one (forest queue) ≤ n
    → (es : List Expr) × (bfs_queue n queue ≡ some es)
      × ((weight : Expr → ℕ) → total weight es ≡ total weight (forest queue))
unfolding bfs_queue yield_node
bfs_queue-total n [] h = ([], refl, λ weight. refl)
bfs_queue-total zero (e ∷ queue) h =
    absurd (omega (arith, total-append one (dfs e) (forest queue), dfs-children one e))
bfs_queue-total (suc n) (e ∷ queue) h =
    let fuel : total one (forest (queue ++ to_list (children e))) ≤ n = omega (
      arith,
      forest-append one queue (to_list (children e)),
      total-append one (dfs e) (forest queue),
      dfs-children one e,
    ) in
    let (es, p, q) = bfs_queue-total n (queue ++ to_list (children e)) fuel in
    (
      e ∷ es,
      rw p,
      λ weight. omega (
        arith,
        q weight,
        forest-append weight queue (to_list (children e)),
        total-append weight (dfs e) (forest queue),
        dfs-children weight e,
      ),
    )

total-one : (es : List Expr) → total one es ≡ length es
total-one [] = refl
total-one (e ∷ es) = omega (arith, total-one es)

-- `bfs` ends after one step for each node, and it yields what `dfs` does, in another order: whatever
-- weights the nodes have, those that `bfs` yields add up to the sum over `dfs`.
pub bfs-dfs :
    (n : ℕ) (e : Expr)
    → length (dfs e) ≤ n
    → (es : List Expr) × (bfs n e ≡ some es)
      × ((weight : Expr → ℕ) → total weight es ≡ total weight (dfs e))
unfolding bfs
bfs-dfs n e h =
    let (es, p, q) =
      bfs_queue-total n (e ∷ []) (omega (arith, total-append one (dfs e) [], total-one (dfs e))) in
    (es, p, λ weight. omega (arith, q weight, total-append weight (dfs e) []))

total-keep :
    (test : Expr → Bool) (weight : Expr → ℕ) (es : List Expr)
    → total weight (keep test es) ≡ total (λ e. if test e then weight e else 0) es
unfolding keep
total-keep test weight [] = refl
total-keep test weight (e ∷ es) = elim (Bool-cases (test e)) [
  | inl h ↦ rw h (ap (λ n. weight e + n) (total-keep test weight es))
  | inr h ↦ rw h (omega (arith, total-keep test weight es))
]

-- `find_all` ends after one step for each node, and it yields the nodes of `dfs` that pass the test:
-- whatever weights these have, those that `find_all` yields add up to the sum over `dfs`.
pub find_all-dfs :
    (test : Expr → Bool) (n : ℕ) (e : Expr)
    → length (dfs e) ≤ n
    → (es : List Expr) × (find_all test n e ≡ some es)
      × ((weight : Expr → ℕ)
          → total weight es ≡ total (λ x. if test x then weight x else 0) (dfs e))
unfolding find_all
find_all-dfs test n e h =
    let (es, p, q) = bfs-dfs n e h in
    (
      keep test es,
      rw p,
      λ weight. total-keep test weight es ∙ q (λ x. if test x then weight x else 0),
    )
