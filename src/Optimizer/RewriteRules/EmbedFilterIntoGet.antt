-- ===== src/Optimizer/RewriteRules/EmbedFilterIntoGet.antt =====
-- `EmbedFilterIntoGet` of optimizer/rules/rules.py. A match has the shape of the rule's pattern; for another
-- tree the model stops.
use eva.Expression.Conjunction.Meaning.{holds_opt}
use eva.Expression.Holds.{holds}
use eva.Expression.Types.{Expr}
use eva.Optimizer.Memo.Defs.{Memo}
use eva.Optimizer.Operators.{
  Alias, TableType, video_data, Get, get_opr, filter_opr, logical_operator, Tree, tree, Trees,
  no_trees, more_trees,
}
use eva.Optimizer.Pushdown.Defs.{extract_pushdown_predicate}
use eva.Optimizer.Pushdown.Meaning.{holds-extract_pushdown_predicate}
use eva.Optimizer.RewriteRules.Shared.{
  node1, with_filter, passes, passes_all, passes-with_filter, only_plan,
}
use eva.Prelude.{
  String, ◌≡◌, refl, sym, subst, ◌∙◌, Bool, true, false, ◌&&◌, Option, none, some, List, [], ◌∷◌,
  arith, if◌then◌else◌,
}
use eva.Prelude.Result.{unsupported, Result, err, ok, ◌>>=◌, >>=-eq-ok}
use eva.Prelude.Texts.{join_texts}

-- `f"{video_alias}.id"`, of an alias without column names
unfoldable pub col_alias : Alias → Result String
unfolding join_texts
col_alias video_alias = elim video_alias.col_names [
  | [] ↦ ok (join_texts video_alias.alias_name ".id")
  | col ∷ cols ↦ err unsupported
]

abbrev pub is_video_table : TableType → Bool
is_video_table video_data = true
is_video_table t = false

abbrev pub is_there : Option Expr → Bool
is_there none = false
is_there (some e) = true

unfoldable pub check_get : Expr → Get → Result Bool
unfolding col_alias extract_pushdown_predicate
check_get predicate lget = col_alias lget.video >>= λ col.
    extract_pushdown_predicate (some predicate) col >>= λ parts. ok (is_there parts.0)

unfoldable pub check : Tree → Memo → Result Bool
unfolding check_get
check
      (tree
        (logical_operator (filter_opr predicate))
        (more_trees (tree (logical_operator (get_opr lget)) us) no_trees))
      m =
    let checked : Result Bool = check_get predicate lget in
    if is_video_table lget.table_obj.table_type then checked else ok false
check t m = err unsupported

-- the new plan, or the old one where nothing can be pushed down
abbrev pub embed : Tree → Get → Trees → Option Expr × Option Expr → Tree
embed before lget us (none, unsupported_pred) = before
embed before lget us (some pushdown_pred, unsupported_pred) =
    with_filter unsupported_pred
      (tree (logical_operator (get_opr (record lget { predicate = some pushdown_pred }))) us)

unfoldable pub apply : Tree → Memo → Result (List Tree)
unfolding col_alias extract_pushdown_predicate
apply
      (tree
        (logical_operator (filter_opr predicate))
        (more_trees (tree (logical_operator (get_opr lget)) us) no_trees))
      m =
    col_alias lget.video >>= λ col. extract_pushdown_predicate (some predicate) col >>= λ parts.
    ok (
      embed (node1 (filter_opr predicate) (tree (logical_operator (get_opr lget)) us)) lget us parts
      ∷ [])
apply t m = err unsupported

embed-passes :
    (atom : Expr → Bool) (predicate : Expr) (lget : Get) (us : Trees)
    (parts : Option Expr × Option Expr)
    → lget.predicate ≡ none
    → (holds_opt atom parts.0 && holds_opt atom parts.1) ≡ holds atom predicate
    → passes atom (
        embed
          (node1 (filter_opr predicate) (tree (logical_operator (get_opr lget)) us))
          lget
          us
          parts)
      ≡ passes atom (node1 (filter_opr predicate) (tree (logical_operator (get_opr lget)) us))
unfolding passes
embed-passes atom predicate lget us (none, rest) h k = refl
embed-passes atom predicate lget us (some pushed, rest) h k =
    passes-with_filter atom rest
      (tree (logical_operator (get_opr (record lget { predicate = some pushed }))) us)
    ∙ rw (h, sym k) (three (holds_opt atom rest) (holds atom pushed) (passes_all atom us))
  where
    three : (a b c : Bool) → (a && (b && c)) ≡ ((b && a) && (c && true))
    three a b c = ground arith

-- A row satisfies the conditions of the plan that `EmbedFilterIntoGet` returns exactly when it satisfies
-- those of the filter over the table, if the table had no condition of its own.
pub passes-apply_embed :
    (atom : Expr → Bool) (predicate : Expr) (lget : Get) (us : Trees) (m : Memo) (after : Tree)
    → lget.predicate ≡ none
    → apply (node1 (filter_opr predicate) (tree (logical_operator (get_opr lget)) us)) m
      ≡ ok (after ∷ [])
    → passes atom after
      ≡ passes atom (node1 (filter_opr predicate) (tree (logical_operator (get_opr lget)) us))
unfolding apply
passes-apply_embed atom predicate lget us m after h p =
    let (col, c, q) = >>=-eq-ok (col_alias lget.video) _ p in
    let ((pushed, rest), e, k) = >>=-eq-ok (extract_pushdown_predicate (some predicate) col) _ q in
    subst
      (λ t.
        passes atom t
        ≡ passes atom (node1 (filter_opr predicate) (tree (logical_operator (get_opr lget)) us)))
      (only_plan _ after k)
      (embed-passes atom predicate lget us (pushed, rest) h
        (holds-extract_pushdown_predicate atom predicate col pushed rest e))
