-- ===== src/Optimizer/RewriteRules/ReorderPredicates.antt =====
-- `ReorderPredicates` of optimizer/rules/rules.py. The catalog's costs of functions are given.
pub mod Stable
use eva.Expression.Conjunction.Defs.{to_conjunction_list, conjunction_list_to_expression_tree}
use eva.Expression.Conjunction.Meaning.{
  all_hold-append, all_hold-to_conjunction_list, holds_opt,
  holds_opt-conjunction_list_to_expression_tree,
}
use eva.Expression.Equality.{eq_expr, eq_expr_refl}
use eva.Expression.Holds.{holds, all_hold}
use eva.Expression.Traversal.{dfs, find_all}
use eva.Expression.Types.{Expr}
use eva.Optimizer.ExecutionCost.{is_function_expression, get_expression_execution_cost}
use eva.Optimizer.Memo.Defs.{Memo}
use eva.Optimizer.Operators.{filter_opr, logical_operator, Tree, tree, no_trees, more_trees}
use eva.Optimizer.Pushdown.Defs.{partition}
use eva.Optimizer.Pushdown.Meaning.{all_hold-partition}
use eva.Optimizer.RewriteRules.Shared.{node1, only_plan}
use eva.Prelude.{
  ℕ, String, ◌≡◌, refl, sym, ap, ◌∙◌, inl, inr, Bool, true, false, ◌&&◌, Option, none, some, List,
  [], ◌∷◌, ◌++◌, map, arith, leb, if◌then◌else◌, Bool-cases, length,
}
use eva.Prelude.Result.{unsupported, Result, err, ok, ◌>>=◌, ok-injective, >>=-eq-ok}

-- whether a search found a node
abbrev found : Option (List Expr) → Bool
found (some (e ∷ es)) = true
found es = false

-- `list(conjunct.find_all(FunctionExpression))` is not empty
unfoldable pub contains_func : Expr → Bool
contains_func e = found (find_all is_function_expression (length (dfs e)) e)

abbrev cost_value : Option ℕ → ℕ
cost_value none = 0
cost_value (some cost) = cost

-- the cost that a conjunct is sorted by
unfoldable pub cost_key : (String → Option ℕ) → Expr → ℕ
cost_key catalog e = cost_value (get_expression_execution_cost catalog e)

-- `sorted(..., key=lambda x: x[1])`; the sort is stable
unfoldable pub insert_by : (Expr → ℕ) → Expr → List Expr → List Expr
insert_by key e [] = e ∷ []
insert_by key e (f ∷ fs) =
    let rest = insert_by key e fs in if leb (key e) (key f) then e ∷ f ∷ fs else f ∷ rest

unfoldable pub sort_by : (Expr → ℕ) → List Expr → List Expr
unfolding insert_by
sort_by key [] = []
sort_by key (e ∷ es) = insert_by key e (sort_by key es)

-- the simple conjuncts, and then those with functions by their cost
unfoldable pub order : (Expr → Bool) → (Expr → ℕ) → List Expr → List Expr
unfolding partition sort_by
order test key conjuncts = (partition test conjuncts).1 ++ sort_by key (partition test conjuncts).0

-- `==` of two lists
unfoldable pub eq_list : List Expr → List Expr → Bool
unfolding eq_expr
eq_list [] [] = true
eq_list (e ∷ es) (f ∷ fs) = eq_expr e f && eq_list es fs
eq_list es fs = false

abbrev pub above : Tree → Option Expr → List Tree
above child none = []
above child (some predicate) = node1 (filter_opr predicate) child ∷ []

-- no plan where nothing has changed
unfoldable pub reordered : Tree → List Expr → List Expr → List Tree
unfolding eq_list conjunction_list_to_expression_tree
reordered child conjuncts ordered_conjuncts =
    if eq_list ordered_conjuncts conjuncts
    then []
    else above child (conjunction_list_to_expression_tree (map some ordered_conjuncts))

module _ (catalog : String → Option ℕ) where
  unfoldable pub check : Tree → Memo → Result Bool
  unfolding contains_func
  check (tree (logical_operator (filter_opr predicate)) (more_trees child no_trees)) m =
      ok (contains_func predicate)
  check t m = err unsupported

  unfoldable pub apply : Tree → Memo → Result (List Tree)
  unfolding to_conjunction_list order reordered contains_func cost_key
  apply (tree (logical_operator (filter_opr predicate)) (more_trees child no_trees)) m =
      to_conjunction_list predicate >>= λ conjuncts.
      ok (reordered child conjuncts (order contains_func (cost_key catalog) conjuncts))
  apply t m = err unsupported

module _ (atom : Expr → Bool) (key : Expr → ℕ) where
  all_hold-insert_by :
      (e : Expr) (es : List Expr)
      → all_hold atom (insert_by key e es) ≡ (holds atom e && all_hold atom es)
  unfolding insert_by
  all_hold-insert_by e [] = refl
  all_hold-insert_by e (f ∷ es) = elim (Bool-cases (leb (key e) (key f))) [
    | inl h ↦ rw h
    | inr h ↦ rw h (ground (arith, all_hold-insert_by e es))
  ]

  all_hold-sort_by : (es : List Expr) → all_hold atom (sort_by key es) ≡ all_hold atom es
  unfolding sort_by
  all_hold-sort_by [] = refl
  all_hold-sort_by (e ∷ es) =
      all_hold-insert_by e (sort_by key es) ∙ ap (λ b. holds atom e && b) (all_hold-sort_by es)

  all_hold-order :
      (test : Expr → Bool) (es : List Expr) → all_hold atom (order test key es) ≡ all_hold atom es
  unfolding order
  all_hold-order test es =
      all_hold-append atom (partition test es).1 (sort_by key (partition test es).0)
      ∙ ground (arith, all_hold-sort_by (partition test es).0, all_hold-partition atom test es)

pub eq_list_refl : (es : List Expr) → eq_list es es ≡ true
unfolding eq_list
eq_list_refl [] = refl
eq_list_refl (e ∷ es) = rw (eq_expr_refl e) (eq_list_refl es)

-- What `ReorderPredicates` returns, if anything, is a filter over the same plan, and its predicate
-- holds of a row exactly when the old one does.
pub holds-apply_reorder :
    (atom : Expr → Bool) (catalog : String → Option ℕ) (predicate : Expr) (child : Tree) (m : Memo)
    (after : Tree)
    → apply catalog (node1 (filter_opr predicate) child) m ≡ ok (after ∷ [])
    → (ordered : Expr) × (after ≡ node1 (filter_opr ordered) child)
      × (holds atom ordered ≡ holds atom predicate)
unfolding apply
holds-apply_reorder atom catalog predicate child m after h =
    let (es, p, q) = >>=-eq-ok (to_conjunction_list predicate) _ h in
    let same : holds_opt atom (
          conjunction_list_to_expression_tree
            (map some (order contains_func (cost_key catalog) es)))
        ≡ holds atom predicate =
      holds_opt-conjunction_list_to_expression_tree atom (order contains_func (cost_key catalog) es)
      ∙ all_hold-order atom (cost_key catalog) contains_func es
      ∙ all_hold-to_conjunction_list atom predicate es p in
    by_change (eq_list (order contains_func (cost_key catalog) es) es)
      (conjunction_list_to_expression_tree (map some (order contains_func (cost_key catalog) es)))
      same (ok-injective q)
  where
    by_change :
        (b : Bool) (t : Option Expr)
        → holds_opt atom t ≡ holds atom predicate
        → (if b then [] else above child t) ≡ after ∷ []
        → (ordered : Expr) × (after ≡ node1 (filter_opr ordered) child)
          × (holds atom ordered ≡ holds atom predicate)
    by_change true t same e = absurd (cc)
    by_change false none same e = absurd (cc)
    by_change false (some x) same e = (x, sym (only_plan _ after (ap ok e)), same)
