-- ===== src/Examples/RewriteRules.antt =====
-- The theorems on the rewrite rules, at `t.id > 3 AND u.kind = 7 AND t.id = u.id` over two groups.
use eva.Optimizer.RewriteRules.EmbedFilterIntoGet
use eva.Optimizer.RewriteRules.PushDownFilterThroughJoin
use eva.Optimizer.RewriteRules.PushDownFilterThroughApplyAndMerge
use eva.Examples.Conditions.{column, number, compare, both}
use eva.Expression.Columns.{
  get_columns_in_predicate, contains_single_column, has_simple_expressions, is_simple_predicate,
}
use eva.Expression.Conjunction.Defs.{to_conjunction_list, conjunction_list_to_expression_tree}
use eva.Expression.Types.{compare_equal, compare_greater, eq_type, Expr, etype}
use eva.Optimizer.ImplementationRules.Apply.{implement}
use eva.Optimizer.ImplementationRules.Conditions.{passes-implement}
use eva.Optimizer.ImplementationRules.Defs.{get_to_seq_scan}
use eva.Optimizer.Memo.Defs.{Memo, empty_memo}
use eva.Optimizer.Operators.{
  video_data, JoinType, inner_join, Get, Join, Apply, get_opr, filter_opr, join_opr,
  apply_and_merge_opr, exchange_opr, logical_operator, dummy, Tree, tree, no_trees,
}
use eva.Optimizer.Pushdown.Defs.{partition, table_aliases}
use eva.Optimizer.RewriteRules.EmbedFilterIntoGet.{passes-apply_embed}
use eva.Optimizer.RewriteRules.PushDownFilterThroughApplyAndMerge.{passes-apply_through_apply}
use eva.Optimizer.RewriteRules.PushDownFilterThroughJoin.{
  new_join, push_down, passes-push_down, IsOver, push_down-IsOver,
}
use eva.Optimizer.RewriteRules.Shared.{node1, node2, with_filter, passes}
use eva.Optimizer.Rules.RuleType.{logical_get_to_seqscan}
use eva.Optimizer.StatementToPlan.Coverage.{fits, count_trees}
use eva.Prelude.{ℕ, ◌≡◌, refl, Bool, true, false, Option, none, some, [], ◌∷◌}
use eva.Prelude.Texts.{update, is_subset, before_dot}

abbrev over_three : Expr
over_three = compare compare_greater (column "t" "t.id") (number 3)

abbrev is_seven : Expr
is_seven = compare compare_equal (column "u" "u.kind") (number 7)

abbrev same_id : Expr
same_id = compare compare_equal (column "t" "t.id") (column "u" "u.id")

abbrev predicate : Expr
predicate = both (both over_three is_seven) same_id

abbrev is_greater : Expr → Bool
is_greater e = eq_type (etype e) compare_greater

abbrev plain_join : JoinType → Join
plain_join t = record {
  join_type = t;
  join_predicate = none;
  left_keys = [];
  right_keys = [];
  join_project = [];
}

abbrev group_node : ℕ → Tree
group_node g = tree (dummy (some g) (logical_operator exchange_opr)) no_trees

abbrev joined : Tree
joined =
    node2 (join_opr (record (plain_join inner_join) { join_predicate = some same_id }))
      (node1 (filter_opr over_three) (group_node 0)) (node1 (filter_opr is_seven) (group_node 1))

passes-push_down_example :
    passes is_greater joined
    ≡ passes is_greater (
        node1
          (filter_opr predicate)
          (node2 (join_opr (plain_join inner_join)) (group_node 0) (group_node 1)))
unfolding PushDownFilterThroughJoin.push_down to_conjunction_list
    conjunction_list_to_expression_tree partition table_aliases is_subset get_columns_in_predicate
    before_dot update
passes-push_down_example =
    PushDownFilterThroughJoin.passes-push_down is_greater predicate (plain_join inner_join)
      (group_node 0) (group_node 1) joined ("t" ∷ []) ("u" ∷ []) refl

push_down-IsOver_example :
    (lp rp join_predicate : Option Expr) × (node2
        (join_opr (PushDownFilterThroughJoin.new_join (plain_join inner_join) join_predicate))
        (with_filter lp (group_node 0))
        (with_filter rp (group_node 1))
      ≡ joined)
    × PushDownFilterThroughJoin.IsOver ("t" ∷ []) lp
    × PushDownFilterThroughJoin.IsOver ("u" ∷ []) rp
unfolding PushDownFilterThroughJoin.push_down to_conjunction_list
    conjunction_list_to_expression_tree partition table_aliases is_subset get_columns_in_predicate
    before_dot update
push_down-IsOver_example =
    PushDownFilterThroughJoin.push_down-IsOver predicate (plain_join inner_join) (group_node 0)
      (group_node 1) joined ("t" ∷ []) ("u" ∷ []) refl

abbrev video_get : Get
video_get = record {
  video = record { alias_name = "t"; col_names = [] };
  table_obj = record { table_name = "t"; table_type = video_data };
  alias = "t";
  predicate = none;
  target_list = none;
  sampling_rate = none;
  sampling_type = none;
}

abbrev embedded : Tree
embedded =
    node1 (filter_opr (both is_seven same_id)) (
      tree (logical_operator (get_opr (record video_get { predicate = some over_three }))) no_trees)

passes-apply_embed_example :
    passes is_greater embedded
    ≡ passes is_greater
        (node1 (filter_opr predicate) (tree (logical_operator (get_opr video_get)) no_trees))
unfolding EmbedFilterIntoGet.apply to_conjunction_list conjunction_list_to_expression_tree partition
    contains_single_column is_simple_predicate get_columns_in_predicate update
    has_simple_expressions
passes-apply_embed_example =
    EmbedFilterIntoGet.passes-apply_embed is_greater predicate video_get no_trees empty_memo
      embedded refl refl

abbrev one_group : Memo
one_group = record {
  exprs = [];
  groups =
      record {
        group_id = 0;
        aliases = "t" ∷ [];
        logical_exprs = [];
        physical_exprs = [];
        winner = none;
      }
      ∷ [];
  group_exprs = [];
}

abbrev detector : Apply
detector = record {
  func_expr = column "u" "u.kind";
  alias = record { alias_name = "u"; col_names = [] };
  do_unnest = false;
}

abbrev pushed_below : Tree
pushed_below =
    node1 (filter_opr (both is_seven same_id))
      (node1 (apply_and_merge_opr detector) (node1 (filter_opr over_three) (group_node 0)))

passes-apply_through_apply_example :
    passes is_greater pushed_below
    ≡ passes is_greater
        (node1 (filter_opr predicate) (node1 (apply_and_merge_opr detector) (group_node 0)))
unfolding PushDownFilterThroughApplyAndMerge.apply to_conjunction_list
    conjunction_list_to_expression_tree partition table_aliases is_subset get_columns_in_predicate
    before_dot update
passes-apply_through_apply_example =
    PushDownFilterThroughApplyAndMerge.passes-apply_through_apply is_greater predicate detector
      (some 0) (logical_operator exchange_opr) no_trees one_group pushed_below refl

passes-implement_example :
    passes is_greater (get_to_seq_scan (record video_get { predicate = some over_three }))
    ≡ passes is_greater (
        tree
          (logical_operator (get_opr (record video_get { predicate = some over_three })))
          no_trees)
unfolding implement
passes-implement_example =
    passes-implement is_greater true empty_memo logical_get_to_seqscan
      (get_opr (record video_get { predicate = some over_three })) no_trees
      (get_to_seq_scan (record video_get { predicate = some over_three }))
      (unfold fits count_trees in refl) refl
