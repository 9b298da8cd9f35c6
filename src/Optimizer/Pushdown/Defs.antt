-- ===== src/Optimizer/Pushdown/Defs.antt =====
-- `extract_pushdown_predicate` and `extract_pushdown_predicate_for_alias`.
use eva.Expression.Columns.{get_columns_in_predicate, contains_single_column, is_simple_predicate}
use eva.Expression.Conjunction.Defs.{to_conjunction_list, conjunction_list_to_expression_tree}
use eva.Expression.Types.{Expr}
use eva.Prelude.{String, Bool, ◌&&◌, Option, none, some, List, [], ◌∷◌, map, if◌then◌else◌}
use eva.Prelude.Result.{Result, ok, ◌>>=◌}
use eva.Prelude.Texts.{add, is_subset, before_dot}

-- the loop that fills `pushdown_preds` and `rem_pred`
unfoldable pub partition : (Expr → Bool) → List Expr → List Expr × List Expr
partition test [] = ([], [])
partition test (pred ∷ preds) =
    let (pushdown_preds, rem_pred) = partition test preds in
    if test pred then (pred ∷ pushdown_preds, rem_pred) else (pushdown_preds, pred ∷ rem_pred)

abbrev pub to_trees : List Expr × List Expr → Option Expr × Option Expr
to_trees (pushdown_preds, rem_pred) = (
  conjunction_list_to_expression_tree (map some pushdown_preds),
  conjunction_list_to_expression_tree (map some rem_pred),
)

abbrev pub is_pushable : String → Expr → Bool
is_pushable column pred =
    contains_single_column (some pred) (some column) && is_simple_predicate pred

unfoldable pub extract_pushdown_predicate :
    Option Expr → String → Result (Option Expr × Option Expr)
extract_pushdown_predicate none column = ok (none, none)
extract_pushdown_predicate (some predicate) column =
    if is_pushable column predicate
    then ok (some predicate, none)
    else to_conjunction_list predicate >>= λ pred_list.
        ok (to_trees (partition (is_pushable column) pred_list))

-- `set([col.split(".")[0] for col in column_aliases])`
unfoldable pub table_aliases : List String → List String
table_aliases [] = []
table_aliases (col ∷ cols) = add (table_aliases cols) (before_dot col)

abbrev pub is_over : List String → Expr → Bool
is_over aliases pred = is_subset (table_aliases (get_columns_in_predicate pred)) aliases

-- The aliases are given by their names.
unfoldable pub extract_pushdown_predicate_for_alias :
    Option Expr → List String → Result (Option Expr × Option Expr)
extract_pushdown_predicate_for_alias none aliases = ok (none, none)
extract_pushdown_predicate_for_alias (some predicate) aliases =
    to_conjunction_list predicate >>= λ pred_list.
    ok (to_trees (partition (is_over aliases) pred_list))
