-- ===== src/Optimizer/RewriteRules/LogicalJoinToPhysicalHashJoin.antt =====
-- `LogicalJoinToPhysicalHashJoin` of optimizer/rules/rules.py.
use eva.Expression.Types.{TupleValue, Expr, nil, cons, children}
use eva.Optimizer.ExecutionCost.{is_function_expression}
use eva.Optimizer.Memo.Defs.{Memo}
use eva.Optimizer.Operators.{
  JoinType, lateral_join, inner_join, Join, join_opr, hash_join_build_plan, hash_join_probe_plan,
  logical_operator, physical_plan, dummy, Tree, tree, no_trees, more_trees,
}
use eva.Optimizer.Pushdown.JoinKeys.{extract_equi_join_keys}
use eva.Optimizer.RewriteRules.Shared.{group_aliases}
use eva.Prelude.{
  String, ◌≡◌, refl, Bool, true, false, Option, none, some, List, [], ◌∷◌, if◌then◌else◌,
}
use eva.Prelude.Result.{
  index_error, attribute_error, unsupported, Result, err, ok, ◌>>=◌, ok-injective, >>=-eq-ok,
}

abbrev pub is_inner : JoinType → Bool
is_inner inner_join = true
is_inner lateral_join = false

-- `join_predicate.children[0]`: no function may come first
unfoldable pub check_predicate : JoinType → Option Expr → Result Bool
check_predicate t none = ok false
check_predicate t (some predicate) = elim (children predicate) [
  | nil ↦ err index_error
  | cons j_child es ↦ ok (if is_function_expression j_child then false else is_inner t)
]

unfoldable pub check : Tree → Memo → Result Bool
unfolding check_predicate
check (tree (logical_operator (join_opr join)) ts) m =
    check_predicate join.join_type join.join_predicate
check t m = err unsupported

-- the probe side over the build side
abbrev pub probe_side : Join → Expr → Tree → Tree → List TupleValue × List TupleValue → Tree
probe_side join join_predicates a b (a_join_keys, b_join_keys) =
    tree
      (physical_plan
        (hash_join_probe_plan join.join_type b_join_keys (some join_predicates) join.join_project))
      (more_trees
        (tree (physical_plan (hash_join_build_plan join.join_type a_join_keys))
          (more_trees a no_trees))
        (more_trees b no_trees))

-- the keys of a predicate that is there; `to_conjunction_list` fails on `None`
unfoldable pub plan_of_join :
    Join → Option Expr → Tree → Tree → List String → List String → Result Tree
unfolding extract_equi_join_keys
plan_of_join join none a b a_table_aliases b_table_aliases = err attribute_error
plan_of_join join (some join_predicates) a b a_table_aliases b_table_aliases =
    extract_equi_join_keys join_predicates a_table_aliases b_table_aliases >>= λ keys.
    ok (probe_side join join_predicates a b keys)

unfoldable pub apply : Tree → Memo → Result (List Tree)
unfolding plan_of_join group_aliases
apply
      (tree
        (logical_operator (join_opr join))
        (more_trees (tree (dummy g o) us) (more_trees (tree (dummy h p) vs) no_trees)))
      m =
    group_aliases m g >>= λ a_table_aliases. group_aliases m h >>= λ b_table_aliases.
    plan_of_join join join.join_predicate (tree (dummy g o) us) (tree (dummy h p) vs)
      a_table_aliases b_table_aliases
    >>= λ plan. ok (plan ∷ [])
apply t m = err unsupported

pub plan_of_join-keys :
    (join : Join) (p : Option Expr) (a b plan : Tree) (la ra : List String)
    → plan_of_join join p a b la ra ≡ ok plan
    → (e : Expr) × (ls rs : List TupleValue) × (p ≡ some e)
      × (extract_equi_join_keys e la ra ≡ ok (ls, rs))
      × (probe_side join e a b (ls, rs) ≡ plan)
unfolding plan_of_join
plan_of_join-keys join none a b plan la ra h = absurd (cc)
plan_of_join-keys join (some e) a b plan la ra h =
    let ((ls, rs), p, q) = >>=-eq-ok (extract_equi_join_keys e la ra) _ h in
    (e, ls, rs, refl, p, ok-injective q)
