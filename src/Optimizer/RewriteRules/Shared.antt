-- ===== src/Optimizer/RewriteRules/Shared.antt =====
-- What the rules of optimizer/rules/rules.py share, and the conditions of a plan.
use eva.Expression.Conjunction.Meaning.{holds_opt}
use eva.Expression.Holds.{holds}
use eva.Expression.Types.{Expr}
use eva.Optimizer.Memo.Defs.{Memo}
use eva.Optimizer.Operators.{
  LogicalOperator, get_opr, query_derived_get_opr, filter_opr, join_opr, PhysicalPlan,
  seq_scan_plan, storage_plan, predicate_plan, nested_loop_join_plan, lateral_join_plan,
  hash_join_probe_plan, GroupId, Operator, logical_operator, physical_plan, Tree, tree, Trees,
  no_trees, more_trees,
}
use eva.Prelude.{
  String, ◌≡◌, refl, ap, Bool, true, ◌&&◌, Option, none, some, List, [], ◌∷◌, and_true, get_elem?,
}
use eva.Prelude.Result.{attribute_error, Result, err, ok, or_raise, ◌>>=◌}

-- `context.memo.get_group_by_id(group_id).aliases`
unfoldable pub group_aliases : Memo → GroupId → Result (List String)
group_aliases m none = err attribute_error
group_aliases m (some g) = or_raise attribute_error (get_elem? m.groups g) >>= λ grp. ok grp.aliases

abbrev pub node1 : LogicalOperator → Tree → Tree
node1 l t = tree (logical_operator l) (more_trees t no_trees)

abbrev pub node2 : LogicalOperator → Tree → Tree → Tree
node2 l t u = tree (logical_operator l) (more_trees t (more_trees u no_trees))

-- a filter above a plan, if there is a condition
abbrev pub with_filter : Option Expr → Tree → Tree
with_filter none t = t
with_filter (some predicate) t = node1 (filter_opr predicate) t

-- the condition that a plan node holds
abbrev pub plan_condition : PhysicalPlan → Option Expr
plan_condition (seq_scan_plan predicate columns alias) = predicate
plan_condition (storage_plan table video predicate sampling_rate sampling_type) = predicate
plan_condition (predicate_plan predicate) = some predicate
plan_condition (nested_loop_join_plan join_type join_predicate) = join_predicate
plan_condition (lateral_join_plan join_predicate join_project) = join_predicate
plan_condition (hash_join_probe_plan join_type probe_keys join_predicate join_project) =
    join_predicate
plan_condition plan = none

-- the condition that an operator holds
abbrev pub own_condition : Operator → Option Expr
own_condition (logical_operator (filter_opr predicate)) = some predicate
own_condition (logical_operator (get_opr lget)) = lget.predicate
own_condition (logical_operator (query_derived_get_opr alias predicate target_list)) = predicate
own_condition (logical_operator (join_opr join)) = join.join_predicate
own_condition (physical_plan plan) = plan_condition plan
own_condition opr = none

-- whether a row satisfies all the conditions of a plan; a dummy stands for a group, which has the same
-- conditions before and after
unfoldable mutual
  pub passes : (Expr → Bool) → Tree → Bool
  passes atom (tree opr ts) = holds_opt atom (own_condition opr) && passes_all atom ts

  pub passes_all : (Expr → Bool) → Trees → Bool
  passes_all atom no_trees = true
  passes_all atom (more_trees t ts) = passes atom t && passes_all atom ts

pub passes-with_filter :
    (atom : Expr → Bool) (p : Option Expr) (t : Tree)
    → passes atom (with_filter p t) ≡ (holds_opt atom p && passes atom t)
unfolding passes
passes-with_filter atom none t = refl
passes-with_filter atom (some e) t = ap (λ b. holds atom e && b) (and_true (passes atom t))

pub only_plan : (t u : Tree) → ok (t ∷ []) ≡ ok (u ∷ []) → t ≡ u
only_plan t u h = cc
