-- ===== src/Examples/PlannedJoins.antt =====
-- The theorem on the plan of a hash join, for `t.id = u.id` on two groups with two rows each.
use eva.Optimizer.RewriteRules.LogicalJoinToPhysicalHashJoin
use eva.Examples.Conditions.{row_of}
use eva.Examples.Joins.{same_id, inner}
use eva.Examples.Pushdown.{integer-EqualIsSound}
use eva.Executor.Batches.{rows_of}
use eva.Executor.HashJoin.{index_matches, row_product}
use eva.Executor.PlannedHashJoin.{
  execute_hash_join, AllQualified, on_joined, execute_hash_join-apply,
}
use eva.Expression.Conjunction.Defs.{to_conjunction_list}
use eva.Expression.Ranges.Comparisons.{integer_operation}
use eva.Expression.Types.{Value, unbound, TupleValue, Expr}
use eva.Expression.Values.{Row}
use eva.Optimizer.Memo.Defs.{Group, Memo}
use eva.Optimizer.Operators.{
  inner_join, join_opr, exchange_opr, hash_join_build_plan, hash_join_probe_plan, logical_operator,
  physical_plan, dummy, Tree, tree, no_trees, more_trees,
}
use eva.Optimizer.Pushdown.JoinKeys.{orient, join_keys_of, collect_keys, extract_equi_join_keys}
use eva.Optimizer.RewriteRules.Shared.{group_aliases}
use eva.Prelude.{
  ℕ, zero, String, ◌≡◌, refl, sym, subst, ◌∙◌, true, false, ◌||◌, none, some, List, [], ◌∷◌, map,
  arith, str_eq, eq_iff, filter,
}
use eva.Prelude.Int.{ℤ, pos}
use eva.Prelude.Result.{ok, ok-injective}
use eva.Prelude.Texts.{contains, before_dot}

abbrev group_over : ℕ → String → Group
group_over id alias = record {
  group_id = id;
  aliases = alias ∷ [];
  logical_exprs = [];
  physical_exprs = [];
  winner = none;
}

abbrev two_groups : Memo
two_groups = record {
  exprs = [];
  groups = group_over 0 "t" ∷ group_over 1 "u" ∷ [];
  group_exprs = [];
}

abbrev left_group : Tree
left_group = tree (dummy (some 0) (logical_operator exchange_opr)) no_trees

abbrev right_group : Tree
right_group = tree (dummy (some 1) (logical_operator exchange_opr)) no_trees

abbrev rows_of_groups : Tree → List (List Row)
rows_of_groups (tree (dummy (some zero) o) ts) = (row_of 1 ∷ row_of 2 ∷ []) ∷ []
rows_of_groups t = (row_of 2 ∷ []) ∷ (row_of 3 ∷ []) ∷ []

abbrev one_bucket : List Value → ℤ
one_bucket values = pos 0

abbrev both_sides : List Expr → Row × Row → Row × Row
both_sides target_list row = row

abbrev left_key : TupleValue
left_key = record { name = "t.id"; table_alias = "t"; col_object = unbound; col_alias = "t.id" }

abbrev right_key : TupleValue
right_key = record { name = "u.id"; table_alias = "u"; col_object = unbound; col_alias = "u.id" }

abbrev hash_plan : Tree
hash_plan =
    tree (physical_plan (hash_join_probe_plan inner_join (right_key ∷ []) (some same_id) [])) (
      more_trees
        (tree (physical_plan (hash_join_build_plan inner_join (left_key ∷ [])))
          (more_trees left_group no_trees))
        (more_trees right_group no_trees))

keys_of_same_id :
    extract_equi_join_keys same_id ("t" ∷ []) ("u" ∷ []) ≡ ok (left_key ∷ [], right_key ∷ [])
unfolding extract_equi_join_keys to_conjunction_list collect_keys join_keys_of orient contains
keys_of_same_id = refl

planned :
    LogicalJoinToPhysicalHashJoin.apply
      (tree
        (logical_operator (join_opr inner))
        (more_trees left_group (more_trees right_group no_trees)))
      two_groups
    ≡ ok (hash_plan ∷ [])
unfolding LogicalJoinToPhysicalHashJoin.apply extract_equi_join_keys to_conjunction_list
    collect_keys join_keys_of orient contains
planned = refl

apart_aliases : (a : String) → contains ("t" ∷ []) a ≡ true → contains ("u" ∷ []) a ≡ false
unfolding contains
apart_aliases a h =
    let is_t : "t" ≡ a = (eq_iff "t" a).0 (ground arith) in
    subst (λ x. (str_eq "u" x || false) ≡ false) is_t refl

execute_hash_join-apply_example :
    (out : List (List (Row × Row))) × (execute_hash_join index_matches one_bucket
        (on_joined integer_operation ("t" ∷ []))
        both_sides
        rows_of_groups
        hash_plan
      ≡ ok out)
    × (rows_of out
        ≡ map (both_sides []) (
            filter (on_joined integer_operation ("t" ∷ []) same_id) (
              row_product
                (rows_of (rows_of_groups right_group))
                (rows_of (rows_of_groups left_group)))))
unfolding group_aliases before_dot
execute_hash_join-apply_example =
    execute_hash_join-apply index_matches (λ ls rs. refl) one_bucket integer_operation
      integer-EqualIsSound both_sides rows_of_groups inner same_id (some 0) (some 1)
      (logical_operator exchange_opr) (logical_operator exchange_opr) no_trees no_trees two_groups
      ("t" ∷ []) ("u" ∷ []) hash_plan refl refl refl apart_aliases
      (λ keys h.
        subst (λ k. AllQualified k.0 × AllQualified k.1) (ok-injective (sym keys_of_same_id ∙ h))
          ((refl, tt), (refl, tt)))
      refl planned
