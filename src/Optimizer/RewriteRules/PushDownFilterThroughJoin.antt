-- ===== src/Optimizer/RewriteRules/PushDownFilterThroughJoin.antt =====
-- `PushDownFilterThroughJoin` of optimizer/rules/rules.py. A match has the shape of the rule's pattern; for another
-- tree the model stops.
use eva.Expression.Conjunction.Defs.{join_all, conjunction_list_to_expression_tree}
use eva.Expression.Conjunction.Meaning.{holds_opt}
use eva.Expression.Holds.{holds}
use eva.Expression.Types.{Expr}
use eva.Expression.Values.{Row, Operation}
use eva.Optimizer.Memo.Defs.{Memo}
use eva.Optimizer.Operators.{
  Join, filter_opr, join_opr, logical_operator, dummy, Tree, tree, no_trees, more_trees,
}
use eva.Optimizer.Pushdown.Defs.{extract_pushdown_predicate_for_alias}
use eva.Optimizer.Pushdown.Meaning.{
  holds-extract_pushdown_predicate_for_alias, holds_opt_on, AgreeOnTables,
  extract_pushdown_predicate_for_alias-tables,
}
use eva.Optimizer.RewriteRules.Shared.{
  group_aliases, node1, node2, with_filter, passes, passes-with_filter,
}
use eva.Prelude.{
  String, ◌≡◌, refl, subst, Bool, true, ◌&&◌, Option, none, some, List, [], ◌∷◌, arith,
}
use eva.Prelude.Result.{unsupported, Result, err, ok, ◌>>=◌, ok-injective, >>=-eq-ok}

-- the rest of the predicate becomes part of the join's
abbrev pub join_predicate_with : Option Expr → Option Expr → Option Expr
join_predicate_with none join_predicate = join_predicate
join_predicate_with (some rem_pred) join_predicate =
    conjunction_list_to_expression_tree (some rem_pred ∷ join_predicate ∷ [])

-- `LogicalJoin(join_type, join_predicate, left_keys, right_keys)`: the new node has no projection
abbrev pub new_join : Join → Option Expr → Join
new_join join join_predicate = record join { join_predicate = join_predicate; join_project = [] }

unfoldable pub push_down : Expr → Join → Tree → Tree → List String → List String → Result Tree
unfolding extract_pushdown_predicate_for_alias
push_down predicate join left right left_group_aliases right_group_aliases =
    extract_pushdown_predicate_for_alias (some predicate) left_group_aliases >>= λ l.
    extract_pushdown_predicate_for_alias l.1 right_group_aliases >>= λ r. ok (
      node2 (join_opr (new_join join (join_predicate_with r.1 join.join_predicate)))
        (with_filter l.0 left) (with_filter r.0 right))

unfoldable pub apply : Tree → Memo → Result (List Tree)
unfolding push_down group_aliases
apply
      (tree (logical_operator (filter_opr predicate)) (
        more_trees
          (tree
            (logical_operator (join_opr join))
            (more_trees (tree (dummy g o) us) (more_trees (tree (dummy h p) vs) no_trees)))
          no_trees))
      m =
    group_aliases m g >>= λ left_group_aliases. group_aliases m h >>= λ right_group_aliases.
    push_down predicate join (tree (dummy g o) us) (tree (dummy h p) vs) left_group_aliases
      right_group_aliases
    >>= λ plan. ok (plan ∷ [])
apply t m = err unsupported

holds_opt-join_predicate_with :
    (atom : Expr → Bool) (rest join_predicate : Option Expr)
    → holds_opt atom (join_predicate_with rest join_predicate)
      ≡ (holds_opt atom rest && holds_opt atom join_predicate)
unfolding conjunction_list_to_expression_tree join_all holds
holds_opt-join_predicate_with atom none join_predicate = refl
holds_opt-join_predicate_with atom (some rest) none = ground arith
holds_opt-join_predicate_with atom (some rest) (some predicate) = ground arith

holds_opt-extract :
    (atom : Expr → Bool) (p : Option Expr) (aliases : List String) (pushed rest : Option Expr)
    → extract_pushdown_predicate_for_alias p aliases ≡ ok (pushed, rest)
    → (holds_opt atom pushed && holds_opt atom rest) ≡ holds_opt atom p
unfolding extract_pushdown_predicate_for_alias
holds_opt-extract atom (some e) aliases pushed rest h =
    holds-extract_pushdown_predicate_for_alias atom e aliases pushed rest h
holds_opt-extract atom none aliases pushed rest h =
    let e : (none, none) ≡ (pushed, rest) = ok-injective h in
    subst (λ (t : Option Expr × Option Expr). (holds_opt atom t.0 && holds_opt atom t.1) ≡ true) e
      refl

split_condition :
    (l rem r rest jp h x y : Bool)
    → (l && rem) ≡ h
    → (r && rest) ≡ rem
    → ((rest && jp) && ((l && x) && ((r && y) && true)))
      ≡ (h && ((jp && (x && (y && true))) && true))
split_condition l rem r rest jp h x y p q = ground arith

-- The parts of a filter over a join go to the left side, to the right side and into the join's
-- predicate: a row satisfies the conditions of the new plan exactly when it satisfies those of the old
-- one.
pub passes-push_down :
    (atom : Expr → Bool) (predicate : Expr) (join : Join) (left right after : Tree)
    (left_group_aliases right_group_aliases : List String)
    → push_down predicate join left right left_group_aliases right_group_aliases ≡ ok after
    → passes atom after
      ≡ passes atom (node1 (filter_opr predicate) (node2 (join_opr join) left right))
unfolding push_down passes
passes-push_down atom predicate join left right after la ra h =
    let ((lp, rem), p, q) =
      >>=-eq-ok (extract_pushdown_predicate_for_alias (some predicate) la) _ h in
    let ((rp, rest), u, v) = >>=-eq-ok (extract_pushdown_predicate_for_alias rem ra) _ q in
    subst
      (λ t.
        passes atom t
        ≡ passes atom (node1 (filter_opr predicate) (node2 (join_opr join) left right)))
      (ok-injective v)
      (rw
        (
          holds_opt-join_predicate_with atom rest join.join_predicate,
          passes-with_filter atom lp left,
          passes-with_filter atom rp right,
        )
        (split_condition (holds_opt atom lp) (holds_opt atom rem) (holds_opt atom rp)
          (holds_opt atom rest) (holds_opt atom join.join_predicate) (holds atom predicate)
          (passes atom left) (passes atom right)
          (holds_opt-extract atom (some predicate) la lp rem p)
          (holds_opt-extract atom rem ra rp rest u)))

-- the outcome of a condition depends on the columns of some tables only
abbrev pub IsOver : List String → Option Expr → Type 0
IsOver aliases p =
    (op : Operation) (row row' : Row)
    → AgreeOnTables aliases row row'
    → holds_opt_on op row p ≡ holds_opt_on op row' p

extract-IsOver :
    (p : Option Expr) (aliases : List String) (pushed rest : Option Expr)
    → extract_pushdown_predicate_for_alias p aliases ≡ ok (pushed, rest)
    → IsOver aliases pushed
unfolding extract_pushdown_predicate_for_alias
extract-IsOver (some e) aliases pushed rest h op row row' agree =
    extract_pushdown_predicate_for_alias-tables op row row' e aliases pushed rest agree h
extract-IsOver none aliases pushed rest h op row row' agree =
    let e : (none, none) ≡ (pushed, rest) = ok-injective h in
    subst (λ (t : Option Expr × Option Expr). holds_opt_on op row t.0 ≡ holds_opt_on op row' t.0) e
      refl

-- A filter over a join becomes a join whose sides are filtered: what filters a side has an outcome that
-- depends on the columns of that side's tables only.
pub push_down-IsOver :
    (predicate : Expr) (join : Join) (left right after : Tree)
    (left_group_aliases right_group_aliases : List String)
    → push_down predicate join left right left_group_aliases right_group_aliases ≡ ok after
    → (lp rp join_predicate : Option Expr) × (node2
          (join_opr (new_join join join_predicate))
          (with_filter lp left)
          (with_filter rp right)
        ≡ after)
      × IsOver left_group_aliases lp
      × IsOver right_group_aliases rp
unfolding push_down
push_down-IsOver predicate join left right after la ra h =
    let ((lp, rem), p, q) =
      >>=-eq-ok (extract_pushdown_predicate_for_alias (some predicate) la) _ h in
    let ((rp, rest), u, v) = >>=-eq-ok (extract_pushdown_predicate_for_alias rem ra) _ q in
    (
      lp,
      rp,
      join_predicate_with rest join.join_predicate,
      ok-injective v,
      extract-IsOver (some predicate) la lp rem p,
      extract-IsOver rem ra rp rest u,
    )
