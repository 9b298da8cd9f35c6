-- ===== src/Executor/PlannedHashJoin.antt =====
-- executor/plan_executor.py on the plan of a hash join: what the executors make of the plan that
-- `LogicalJoinToPhysicalHashJoin` of optimizer/rules/rules.py builds.
use eva.Optimizer.RewriteRules.LogicalJoinToPhysicalHashJoin
use eva.Executor.Batches.{rows_of}
use eva.Executor.GroupBy.{is_empty}
use eva.Executor.HashJoin.{
  build_exec, hash_join_exec, index_matches, row_product, hash_join_exec-row_product,
}
use eva.Expression.Types.{Value, TupleValue, Expr}
use eva.Expression.Values.{Row, Operation, holds_on}
use eva.Optimizer.Memo.Defs.{Memo}
use eva.Optimizer.Operators.{
  Join, join_opr, hash_join_build_plan, hash_join_probe_plan, GroupId, Operator, logical_operator,
  physical_plan, dummy, Tree, tree, Trees, no_trees, more_trees,
}
use eva.Optimizer.Pushdown.JoinKeys.{
  extract_equi_join_keys, KeysMatch, EqualIsSound, extract_equi_join_keys-KeysMatch,
}
use eva.Optimizer.RewriteRules.LogicalJoinToPhysicalHashJoin.{
  probe_side, plan_of_join, plan_of_join-keys,
}
use eva.Optimizer.RewriteRules.Shared.{group_aliases, only_plan}
use eva.Prelude.{
  String, ◌≡◌, refl, sym, ap, ap₂, subst, ◌∙◌, inl, inr, Bool, true, false, Option, none, some,
  List, [], ◌∷◌, map, if◌then◌else◌, Bool-cases, filter,
}
use eva.Prelude.Int.{ℤ}
use eva.Prelude.Result.{unsupported, Result, err, ok, ◌>>=◌, >>=-eq-ok}
use eva.Prelude.Texts.{contains, before_dot}

-- the values of the columns that `hash_keys` names, of which the tuple is hashed
abbrev pub key_values : List TupleValue → Row → List Value
key_values keys row = map (λ (key : TupleValue). row key.col_alias) keys

abbrev outcome_of : (Expr → Row × Row → Bool) → Option Expr → Option (Row × Row → Bool)
outcome_of outcome none = none
outcome_of outcome (some predicate) = some (outcome predicate)

-- `_build_execution_tree` and `exec` on a probe plan over a build plan; how a predicate and a projection
-- act on a joined row is given, and so are the batches of the other children
unfoldable pub execute_hash_join :
    {Out : Type 0}
    → (List (ℤ × Row) → List (ℤ × Row) → List (Row × Row))
    → (List Value → ℤ)
    → (Expr → Row × Row → Bool)
    → (List Expr → Row × Row → Out)
    → (Tree → List (List Row))
    → Tree
    → Result (List (List Out))
unfolding build_exec hash_join_exec
execute_hash_join join_on_index hash outcome project child_batches
      (tree (physical_plan (hash_join_probe_plan t probe_keys join_predicate join_project)) (
        more_trees
          (tree (physical_plan (hash_join_build_plan u build_keys)) (more_trees a no_trees))
          (more_trees b no_trees))) =
    build_exec hash (key_values build_keys) (child_batches a) >>= λ build_table. ok (
      hash_join_exec join_on_index hash (key_values probe_keys) (outcome_of outcome join_predicate)
        (project join_project) build_table (child_batches b))
execute_hash_join join_on_index hash outcome project child_batches plan = err unsupported

-- A joined row has the columns of the left tables from the build side, the others from the probe side.
abbrev pub joined_row : List String → Row → Row → Row
joined_row left_aliases probe build col =
    if contains left_aliases (before_dot col) then build col else probe col

-- the name of a column begins with the alias of its table, as the binder writes it
abbrev pub AllQualified : List TupleValue → Type 0
AllQualified [] = Unit
AllQualified (key ∷ keys) = (before_dot key.col_alias ≡ key.table_alias) × AllQualified keys

module _ (left_aliases right_aliases : List String)
    (apart : (a : String) → contains left_aliases a ≡ true → contains right_aliases a ≡ false)
    (probe build : Row) where
  joined_row-left :
      (key : TupleValue)
      → before_dot key.col_alias ≡ key.table_alias
      → contains left_aliases key.table_alias ≡ true
      → joined_row left_aliases probe build key.col_alias ≡ build key.col_alias
  joined_row-left key q h =
      let inside : contains left_aliases (before_dot key.col_alias) ≡ true =
        ap (contains left_aliases) q ∙ h in
      rw inside refl

  joined_row-right :
      (key : TupleValue)
      → before_dot key.col_alias ≡ key.table_alias
      → contains right_aliases key.table_alias ≡ true
      → joined_row left_aliases probe build key.col_alias ≡ probe key.col_alias
  joined_row-right key q h = elim (Bool-cases (contains left_aliases key.table_alias)) [
    | inl e ↦ let both = apart key.table_alias e in absurd (cc)
    | inr e ↦
        let outside : contains left_aliases (before_dot key.col_alias) ≡ false =
          ap (contains left_aliases) q ∙ e in
        rw outside refl
  ]

  key_values-KeysMatch :
      (lefts rights : List TupleValue)
      → AllQualified lefts
      → AllQualified rights
      → KeysMatch left_aliases right_aliases (joined_row left_aliases probe build) lefts rights
      → key_values rights probe ≡ key_values lefts build
  key_values-KeysMatch [] [] q r h = refl
  key_values-KeysMatch [] (y ∷ ys) q r h = absurd h
  key_values-KeysMatch (x ∷ xs) [] q r h = absurd h
  key_values-KeysMatch (x ∷ xs) (y ∷ ys) q r ((inside, there, same), h) =
      ap₂ ◌∷◌ (sym (joined_row-right y r.0 there) ∙ sym same ∙ joined_row-left x q.0 inside)
        (key_values-KeysMatch xs ys q.1 r.1 h)

-- a condition on a joined row
abbrev pub on_joined : Operation → List String → Expr → Row × Row → Bool
on_joined op left_aliases e (probe, build) = holds_on op (joined_row left_aliases probe build) e

module _ {Out : Type 0} (join_on_index : List (ℤ × Row) → List (ℤ × Row) → List (Row × Row))
    (merged : (lefts rights : List (ℤ × Row))
      → join_on_index lefts rights ≡ index_matches lefts rights)
    (hash : List Value → ℤ) (op : Operation) (sound : EqualIsSound op)
    (project : List Expr → Row × Row → Out) (child_batches : Tree → List (List Row)) where
  execute_hash_join-probe_side :
      (join : Join) (e : Expr) (a b : Tree) (la ra : List String) (lefts rights : List TupleValue)
      → ((x : String) → contains la x ≡ true → contains ra x ≡ false)
      → AllQualified lefts
      → AllQualified rights
      → extract_equi_join_keys e la ra ≡ ok (lefts, rights)
      → is_empty (rows_of (child_batches a)) ≡ false
      → (out : List (List Out)) × (execute_hash_join join_on_index hash
            (on_joined op la)
            project
            child_batches
            (probe_side join e a b (lefts, rights))
          ≡ ok out)
        × (rows_of out
            ≡ map (project join.join_project) (
                filter
                  (on_joined op la e)
                  (row_product (rows_of (child_batches b)) (rows_of (child_batches a)))))
  unfolding execute_hash_join
  execute_hash_join-probe_side join e a b la ra lefts rights apart q r keys some_row =
      let (table, built, rows) =
        hash_join_exec-row_product join_on_index merged hash (key_values rights) (key_values lefts)
          (on_joined op la e) (project join.join_project)
          (λ probe build h. key_values-KeysMatch la ra apart probe build lefts rights q r (
            extract_equi_join_keys-KeysMatch op la ra (joined_row la probe build) e lefts rights
              sound h keys))
          (child_batches a) (child_batches b) some_row in
      (
        hash_join_exec join_on_index hash (key_values rights) (some (on_joined op la e))
            (project join.join_project) table (child_batches b),
        rw built refl,
        rows,
      )

  -- The plan of the hash join rule computes the join. If the executors run the plan that the rule makes
  -- of a join over two groups, they let through what the join predicate keeps of all pairs of a
  -- row of the right group and a row of the left one, in the order of the right rows, projected. The
  -- left group gives a row, the groups have no alias in common, the names of the columns that become
  -- keys begin with the aliases of their tables, an equality that holds is one of equal values, and
  -- pandas joins on the index as it documents it.
  pub execute_hash_join-apply :
      (join : Join) (e : Expr) (g h : GroupId) (o p : Operator) (us vs : Trees) (m : Memo)
      (la ra : List String) (plan : Tree)
      → join.join_predicate ≡ some e
      → group_aliases m g ≡ ok la
      → group_aliases m h ≡ ok ra
      → ((x : String) → contains la x ≡ true → contains ra x ≡ false)
      → ((keys : List TupleValue × List TupleValue)
          → extract_equi_join_keys e la ra ≡ ok keys
          → AllQualified keys.0 × AllQualified keys.1)
      → is_empty (rows_of (child_batches (tree (dummy g o) us))) ≡ false
      → LogicalJoinToPhysicalHashJoin.apply
          (tree
            (logical_operator (join_opr join))
            (more_trees (tree (dummy g o) us) (more_trees (tree (dummy h p) vs) no_trees)))
          m
        ≡ ok (plan ∷ [])
      → (out : List (List Out)) × (execute_hash_join join_on_index hash
            (on_joined op la)
            project
            child_batches
            plan
          ≡ ok out)
        × (rows_of out
            ≡ map (project join.join_project) (
                filter (on_joined op la e) (
                  row_product
                    (rows_of (child_batches (tree (dummy h p) vs)))
                    (rows_of (child_batches (tree (dummy g o) us))))))
  unfolding LogicalJoinToPhysicalHashJoin.apply
  execute_hash_join-apply join e g h o p us vs m la ra plan is left right apart qualified some_row
        made =
      let a : Tree = tree (dummy g o) us in
      let b : Tree = tree (dummy h p) vs in
      let planned : (plan_of_join join (some e) a b la ra >>= λ t. ok (t ∷ [])) ≡ ok (plan ∷ []) =
        rw (left, right, is) at made in
      let (t, same, only) = >>=-eq-ok (plan_of_join join (some e) a b la ra) _ planned in
      let (f, lefts, rights, given, keys, shape) =
        plan_of_join-keys join (some e) a b t la ra same in
      let found : extract_equi_join_keys e la ra ≡ ok (lefts, rights) =
        ap (λ x. extract_equi_join_keys x la ra) (some_injective given) ∙ keys in
      let (q, r) = qualified (lefts, rights) found in
      let is_plan : probe_side join e a b (lefts, rights) ≡ plan =
        ap (λ x. probe_side join x a b (lefts, rights)) (some_injective given)
        ∙ shape
        ∙ only_plan t plan only in
      subst
        (λ x.
          (out : List (List Out)) × (execute_hash_join join_on_index hash (on_joined op la) project
              child_batches x
            ≡ ok out)
          × (rows_of out
              ≡ map (project join.join_project) (
                  filter (on_joined op la e)
                    (row_product (rows_of (child_batches b)) (rows_of (child_batches a))))))
        is_plan
        (execute_hash_join-probe_side join e a b la ra lefts rights apart q r found some_row)
    where
      some_injective : {x y : Expr} → some x ≡ some y → x ≡ y
      some_injective same = cc
