-- ===== src/Optimizer/ExecutionCost.antt =====
-- `get_expression_execution_cost` of optimizer/optimizer_utils.py and `CostModel` of
-- optimizer/cost_model.py. The catalog's costs of functions, by name, are given.
use eva.Expression.Traversal.{dfs, dfs_all, find_all, total, total-append, find_all-dfs}
use eva.Expression.Types.{
  function, Expr, tuple_value_expression, constant_value_expression, node, Exprs, nil, cons,
}
use eva.Optimizer.Operators.{apply_and_merge_plan, Operator, physical_plan}
use eva.Prelude.{
  ℕ, ◌+◌, String, ◌≡◌, refl, ap, ap₂, ◌∙◌, Bool, true, false, Option, none, some, List, [], ◌∷◌,
  arith, if◌then◌else◌, length,
}

abbrev pub is_function_expression : Expr → Bool
is_function_expression (node (function name row_id cache) t r es) = true
is_function_expression e = false

-- `DEFAULT_FUNCTION_EXPRESSION_COST`
abbrev pub default_function_expression_cost : ℕ
default_function_expression_cost = 100

abbrev pub entry_cost : Option ℕ → ℕ
entry_cost none = default_function_expression_cost
entry_cost (some cost) = cost

-- The cost of one function expression, which the loop adds
unfoldable pub function_cost : (String → Option ℕ) → Expr → ℕ
function_cost catalog (node (function name row_id cache) t r es) = entry_cost (catalog name)
function_cost catalog e = 0

-- `total_cost` after the loop
unfoldable pub add_costs : (String → Option ℕ) → ℕ → List Expr → ℕ
unfolding function_cost
add_costs catalog total_cost [] = total_cost
add_costs catalog total_cost (child_expr ∷ es) =
    add_costs catalog (total_cost + function_cost catalog child_expr) es

abbrev cost_found : (String → Option ℕ) → Option (List Expr) → Option ℕ
cost_found catalog none = none
cost_found catalog (some es) = some (add_costs catalog 0 es)

-- the loop over `find_all(FunctionExpression)`, with a step for each node
unfoldable pub get_expression_execution_cost : (String → Option ℕ) → Expr → Option ℕ
unfolding find_all dfs add_costs
get_expression_execution_cost catalog expr =
    cost_found catalog (find_all is_function_expression (length (dfs expr)) expr)

-- the cost of a condition, by its structure: of every function call in it
unfoldable mutual
  unfolding function_cost

  pub cost_of : (String → Option ℕ) → Expr → ℕ
  cost_of catalog (tuple_value_expression v) = 0
  cost_of catalog (constant_value_expression v) = 0
  cost_of catalog (node c t r es) = function_cost catalog (node c t r es) + cost_of_all catalog es

  pub cost_of_all : (String → Option ℕ) → Exprs → ℕ
  cost_of_all catalog nil = 0
  cost_of_all catalog (cons e es) = cost_of catalog e + cost_of_all catalog es

add_costs-total :
    (catalog : String → Option ℕ) (n : ℕ) (es : List Expr)
    → add_costs catalog n es ≡ n + total (function_cost catalog) es
unfolding add_costs
add_costs-total catalog n [] = omega arith
add_costs-total catalog n (e ∷ es) =
    omega (arith, add_costs-total catalog (n + function_cost catalog e) es)

only_functions :
    (catalog : String → Option ℕ) (e : Expr)
    → (if is_function_expression e then function_cost catalog e else 0) ≡ function_cost catalog e
unfolding function_cost
only_functions catalog (node (function name row_id cache) t r es) = refl
only_functions catalog _ = refl

mutual
  unfolding dfs cost_of function_cost

  total-dfs :
      (catalog : String → Option ℕ) (e : Expr)
      → total (λ x. if is_function_expression x then function_cost catalog x else 0) (dfs e)
        ≡ cost_of catalog e
  total-dfs catalog (tuple_value_expression v) = refl
  total-dfs catalog (constant_value_expression v) = refl
  total-dfs catalog (node c t r es) =
      ap₂ ◌+◌ (only_functions catalog (node c t r es)) (total-dfs_all catalog es)

  total-dfs_all :
      (catalog : String → Option ℕ) (es : Exprs)
      → total (λ x. if is_function_expression x then function_cost catalog x else 0) (dfs_all es)
        ≡ cost_of_all catalog es
  total-dfs_all catalog nil = refl
  total-dfs_all catalog (cons e es) =
      total-append (λ x. if is_function_expression x then function_cost catalog x else 0) (dfs e)
        (dfs_all es)
      ∙ ap₂ ◌+◌ (total-dfs catalog e) (total-dfs_all catalog es)

-- The search through the queue finds every function call of an expression once: the cost is the sum over
-- the structure of the expression, and the search ends.
pub get_expression_execution_cost-cost_of :
    (catalog : String → Option ℕ) (e : Expr)
    → get_expression_execution_cost catalog e ≡ some (cost_of catalog e)
unfolding get_expression_execution_cost
get_expression_execution_cost-cost_of catalog e =
    let (es, p, q) = find_all-dfs is_function_expression (length (dfs e)) e (omega arith) in
    rw p (
      ap some (
        add_costs-total catalog 0 es
        ∙ omega arith
        ∙ q (function_cost catalog)
        ∙ total-dfs catalog e))

-- `FunctionExpression.has_cache`
abbrev pub has_cache : Expr → Bool
has_cache (node (function name row_id (some cache)) t r es) = true
has_cache e = false

-- `CostModel.calculate_cost`, of the operator of a group expression
unfoldable pub calculate_cost : Operator → ℕ
calculate_cost (physical_plan (apply_and_merge_plan a)) = if has_cache a.func_expr then 0 else 1
calculate_cost opr = 1
