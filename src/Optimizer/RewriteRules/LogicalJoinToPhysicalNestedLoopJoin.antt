-- ===== src/Optimizer/RewriteRules/LogicalJoinToPhysicalNestedLoopJoin.antt =====
-- `LogicalJoinToPhysicalNestedLoopJoin` of optimizer/rules/rules.py, and what it leaves to the hash join.
use eva.Optimizer.RewriteRules.LogicalJoinToPhysicalHashJoin
use eva.Expression.Types.{
  comparison, logical, arithmetic, aggregation, case_when, function, Expr, tuple_value_expression,
  constant_value_expression, node, Exprs, nil, cons, children,
}
use eva.Optimizer.ExecutionCost.{is_function_expression}
use eva.Optimizer.Memo.Defs.{Memo}
use eva.Optimizer.Operators.{
  JoinType, Join, join_opr, nested_loop_join_plan, logical_operator, physical_plan, Tree, tree,
  Trees, no_trees, more_trees,
}
use eva.Optimizer.RewriteRules.LogicalJoinToPhysicalHashJoin.{is_inner, check_predicate}
use eva.Prelude.{
  ◌≡◌, refl, Bool, true, false, not, ◌&&◌, ◌||◌, Option, none, some, List, [], ◌∷◌, arith,
  if◌then◌else◌,
}
use eva.Prelude.Result.{index_error, unsupported, Result, err, ok, ok-injective}
use eva.Prelude.Texts.{starts_with}

-- a function that is called "FuzzDistance", or that begins so
abbrev pub is_fuzzy : Expr → Bool
is_fuzzy (node (function name row_id cache) t r es) = starts_with "FuzzDistance" name
is_fuzzy e = false

unfoldable pub check_fuzzy : JoinType → Option Expr → Result Bool
unfolding starts_with
check_fuzzy t none = ok false
check_fuzzy t (some predicate) = elim (children predicate) [
  | nil ↦ err index_error
  | cons j_child es ↦ ok (is_inner t && is_fuzzy j_child)
]

unfoldable pub check : Tree → Memo → Result Bool
unfolding check_fuzzy
check (tree (logical_operator (join_opr join)) ts) m =
    check_fuzzy join.join_type join.join_predicate
check t m = err unsupported

unfoldable pub apply : Tree → Memo → Result (List Tree)
apply (tree (logical_operator (join_opr join)) (more_trees lhs (more_trees rhs no_trees))) m = ok (
    tree (physical_plan (nested_loop_join_plan join.join_type join.join_predicate))
      (more_trees lhs (more_trees rhs no_trees))
    ∷ [])
apply t m = err unsupported

-- what either rule accepts: an inner join whose predicate begins with a fuzzy function or with no function
abbrev pub has_join_plan : JoinType → Option Expr → Bool
has_join_plan t none = false
has_join_plan t (some predicate) = elim (children predicate) [
  | nil ↦ false
  | cons j_child es ↦ is_inner t && (is_fuzzy j_child || not (is_function_expression j_child))
]

fuzzy_is_function : (e : Expr) → is_fuzzy e ≡ true → is_function_expression e ≡ true
fuzzy_is_function (node (function name row_id cache) t r es) h = refl
fuzzy_is_function (tuple_value_expression v) h = absurd (cc)
fuzzy_is_function (constant_value_expression v) h = absurd (cc)
fuzzy_is_function (node comparison t r es) h = absurd (cc)
fuzzy_is_function (node logical t r es) h = absurd (cc)
fuzzy_is_function (node arithmetic t r es) h = absurd (cc)
fuzzy_is_function (node aggregation t r es) h = absurd (cc)
fuzzy_is_function (node case_when t r es) h = absurd (cc)

split_checks :
    (i f z hash fuzzy : Bool)
    → (z ≡ true → f ≡ true)
    → (if f then false else i) ≡ hash
    → (i && z) ≡ fuzzy
    → ((hash && fuzzy) ≡ false) × ((hash || fuzzy) ≡ (i && (z || not f)))
split_checks i f z hash fuzzy hz hh hk = (ground arith, ground arith)

-- Where the two checks of the join rules return, they never both pass, and one of them passes exactly for
-- an inner join with a predicate that begins with no function, or with one called FuzzDistance. Any other
-- inner join gets no physical plan from these rules.
pub checks_divide :
    (join : Join) (ts : Trees) (m : Memo) (hash fuzzy : Bool)
    → LogicalJoinToPhysicalHashJoin.check (tree (logical_operator (join_opr join)) ts) m ≡ ok hash
    → check (tree (logical_operator (join_opr join)) ts) m ≡ ok fuzzy
    → ((hash && fuzzy) ≡ false)
      × ((hash || fuzzy) ≡ has_join_plan join.join_type join.join_predicate)
unfolding LogicalJoinToPhysicalHashJoin.check check
checks_divide join ts m hash fuzzy h k = by_predicate join.join_type join.join_predicate h k
  where
    by_child :
        (t : JoinType) (es : Exprs)
        → elim es [
          | nil ↦ err index_error
          | cons j_child fs ↦ ok (if is_function_expression j_child then false else is_inner t)
        ]
          ≡ ok hash
        → elim es [ nil ↦ err index_error | cons j_child fs ↦ ok (is_inner t && is_fuzzy j_child) ]
          ≡ ok fuzzy
        → ((hash && fuzzy) ≡ false)
          × ((hash || fuzzy) ≡ elim es [
            | nil ↦ false
            | cons j_child fs ↦
                is_inner t && (is_fuzzy j_child || not (is_function_expression j_child))
          ])
    by_child t nil h k = absurd (cc)
    by_child t (cons c es) h k =
        split_checks (is_inner t) (is_function_expression c) (is_fuzzy c) hash fuzzy
          (fuzzy_is_function c) (ok-injective h) (ok-injective k)

    by_predicate :
        (t : JoinType) (p : Option Expr)
        → LogicalJoinToPhysicalHashJoin.check_predicate t p ≡ ok hash
        → check_fuzzy t p ≡ ok fuzzy
        → ((hash && fuzzy) ≡ false) × ((hash || fuzzy) ≡ has_join_plan t p)
    by_predicate t none h k = (ground arith, ground arith)
    by_predicate t (some e) h k = by_child t (children e) h k
