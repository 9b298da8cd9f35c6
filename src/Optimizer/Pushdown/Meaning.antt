-- ===== src/Optimizer/Pushdown/Meaning.antt =====
-- What pushing a part of a predicate down keeps, and what the part depends on.
use eva.Expression.Columns.{
  get_columns_in_predicate, contains_single, contains_single_column, is_simple_predicate,
}
use eva.Expression.Columns.Frame.{holds_on-Agree}
use eva.Expression.Conjunction.Defs.{to_conjunction_list}
use eva.Expression.Conjunction.Meaning.{
  all_hold-to_conjunction_list, holds_opt, holds_opt-conjunction_list_to_expression_tree,
}
use eva.Expression.Holds.{holds, all_hold}
use eva.Expression.Types.{Expr}
use eva.Expression.Values.{Row, Operation, value_of, truth, holds_on}
use eva.Optimizer.Pushdown.Defs.{
  partition, to_trees, is_pushable, extract_pushdown_predicate, table_aliases, is_over,
  extract_pushdown_predicate_for_alias,
}
use eva.Prelude.{
  String, ◌≡◌, refl, sym, ap₂, subst, ◌∙◌, inl, inr, Bool, true, ◌&&◌, Option, some, List, [], ◌∷◌,
  arith, eq_iff, Bool-cases, &&-eq-true, and_true,
}
use eva.Prelude.Result.{Result, ok, err, ◌>>=◌, ok-injective}
use eva.Prelude.Texts.{contains, before_dot, contains-add, is_subset-contains}

pub all_hold-partition :
    (atom : Expr → Bool) (test : Expr → Bool) (es : List Expr)
    → (all_hold atom (partition test es).0 && all_hold atom (partition test es).1)
      ≡ all_hold atom es
unfolding partition
all_hold-partition atom test [] = refl
all_hold-partition atom test (e ∷ es) = elim (Bool-cases (test e)) [
  | inl k ↦ rw k (ground (arith, all_hold-partition atom test es))
  | inr k ↦ rw k (ground (arith, all_hold-partition atom test es))
]

holds-to_trees :
    (atom : Expr → Bool) (test : Expr → Bool) (es : List Expr)
    → (holds_opt atom (to_trees (partition test es)).0
        && holds_opt atom (to_trees (partition test es)).1)
      ≡ all_hold atom es
holds-to_trees atom test es =
    ap₂ ◌&&◌ (holds_opt-conjunction_list_to_expression_tree atom (partition test es).0)
      (holds_opt-conjunction_list_to_expression_tree atom (partition test es).1)
    ∙ all_hold-partition atom test es

holds-split :
    (atom : Expr → Bool) (test : Expr → Bool) (m : Result (List Expr)) (p : Bool)
    (pushed rest : Option Expr)
    → ((es : List Expr) → m ≡ ok es → all_hold atom es ≡ p)
    → (m >>= λ es. ok (to_trees (partition test es))) ≡ ok (pushed, rest)
    → (holds_opt atom pushed && holds_opt atom rest) ≡ p
holds-split atom test (ok es) p pushed rest hm h =
    subst (λ (t : Option Expr × Option Expr). (holds_opt atom t.0 && holds_opt atom t.1) ≡ p)
      (ok-injective h) (holds-to_trees atom test es ∙ hm es refl)
holds-split atom test (err e) p pushed rest hm h = absurd (cc)

-- Where a predicate is divided by whether its conjuncts are simple and over the one column, the pushed
-- part and the part that is left hold together exactly when the predicate does.
pub holds-extract_pushdown_predicate :
    (atom : Expr → Bool) (e : Expr) (column : String) (pushed rest : Option Expr)
    → extract_pushdown_predicate (some e) column ≡ ok (pushed, rest)
    → (holds_opt atom pushed && holds_opt atom rest) ≡ holds atom e
unfolding extract_pushdown_predicate
holds-extract_pushdown_predicate atom e column pushed rest h =
    elim (Bool-cases (is_pushable column e)) [
      | inl k ↦
          subst
            (λ (t : Option Expr × Option Expr).
              (holds_opt atom t.0 && holds_opt atom t.1) ≡ holds atom e)
            (ok-injective (rw k at h)) (and_true (holds atom e))
      | inr k ↦
          holds-split atom (is_pushable column) (to_conjunction_list e) (holds atom e) pushed rest
            (all_hold-to_conjunction_list atom e) (rw k at h)
    ]

-- Where a predicate is divided by the tables of its columns, the part for the given tables and the part
-- that is left hold together exactly when the predicate does.
pub holds-extract_pushdown_predicate_for_alias :
    (atom : Expr → Bool) (e : Expr) (aliases : List String) (pushed rest : Option Expr)
    → extract_pushdown_predicate_for_alias (some e) aliases ≡ ok (pushed, rest)
    → (holds_opt atom pushed && holds_opt atom rest) ≡ holds atom e
unfolding extract_pushdown_predicate_for_alias
holds-extract_pushdown_predicate_for_alias atom e aliases pushed rest h =
    holds-split atom (is_over aliases) (to_conjunction_list e) (holds atom e) pushed rest
      (all_hold-to_conjunction_list atom e) h

-- a condition has one outcome on two rows
abbrev Same : Operation → Row → Row → Expr → Type 0
Same op row row' e = holds_on op row e ≡ holds_on op row' e

all_hold-Same :
    (op : Operation) (row row' : Row) (test : Expr → Bool) (es : List Expr)
    → ((e : Expr) → test e ≡ true → Same op row row' e)
    → all_hold (λ e. truth (value_of op row e)) (partition test es).0
      ≡ all_hold (λ e. truth (value_of op row' e)) (partition test es).0
unfolding partition
all_hold-Same op row row' test [] h = refl
all_hold-Same op row row' test (e ∷ es) h = elim (Bool-cases (test e)) [
  | inl k ↦ rw k (ap₂ ◌&&◌ (h e k) (all_hold-Same op row row' test es h))
  | inr k ↦ rw k (all_hold-Same op row row' test es h)
]

-- the outcome of a condition that may be missing, on a row
abbrev pub holds_opt_on : Operation → Row → Option Expr → Bool
holds_opt_on op row = holds_opt (λ e. truth (value_of op row e))

pushed-Same :
    (op : Operation) (row row' : Row) (test : Expr → Bool) (m : Result (List Expr))
    (pushed rest : Option Expr)
    → ((e : Expr) → test e ≡ true → Same op row row' e)
    → (m >>= λ es. ok (to_trees (partition test es))) ≡ ok (pushed, rest)
    → holds_opt_on op row pushed ≡ holds_opt_on op row' pushed
pushed-Same op row row' test (ok es) pushed rest hs h =
    subst (λ (t : Option Expr × Option Expr). holds_opt_on op row t.0 ≡ holds_opt_on op row' t.0)
      (ok-injective h)
      (holds_opt-conjunction_list_to_expression_tree (λ e. truth (value_of op row e))
          (partition test es).0
        ∙ all_hold-Same op row row' test es hs
        ∙ sym (
            holds_opt-conjunction_list_to_expression_tree (λ e. truth (value_of op row' e))
              (partition test es).0))
pushed-Same op row row' test (err e) pushed rest hs h = absurd (cc)

single_column :
    (e : Expr) (column c : String)
    → contains_single_column (some e) (some column) ≡ true
    → contains (get_columns_in_predicate e) c ≡ true
    → column ≡ c
unfolding contains_single_column contains
single_column e column c h k = go (get_columns_in_predicate e) h k
  where
    go :
        (cols : List String)
        → contains_single cols (some column) ≡ true
        → contains cols c ≡ true
        → column ≡ c
    go (d ∷ []) h k = ground (arith, eq_iff d column, eq_iff d c)
    go [] h k = absurd (cc)
    go (d ∷ f ∷ cols) h k = absurd (cc)

pushable-Same :
    (op : Operation) (row row' : Row) (column : String) (e : Expr)
    → row column ≡ row' column
    → is_pushable column e ≡ true
    → Same op row row' e
pushable-Same op row row' column e same h = holds_on-Agree op row row' e λ c k.
    subst (λ d. row d ≡ row' d)
      (single_column e column c
        (&&-eq-true (contains_single_column (some e) (some column)) (is_simple_predicate e) h).0 k)
      same

-- Whether the part that is pushed for a column holds of a row depends on nothing but the column: two rows
-- that agree on it give one outcome.
pub extract_pushdown_predicate-column :
    (op : Operation) (row row' : Row) (e : Expr) (column : String) (pushed rest : Option Expr)
    → row column ≡ row' column
    → extract_pushdown_predicate (some e) column ≡ ok (pushed, rest)
    → holds_opt_on op row pushed ≡ holds_opt_on op row' pushed
unfolding extract_pushdown_predicate
extract_pushdown_predicate-column op row row' e column pushed rest same h =
    elim (Bool-cases (is_pushable column e)) [
      | inl k ↦
          subst
            (λ (t : Option Expr × Option Expr). holds_opt_on op row t.0 ≡ holds_opt_on op row' t.0)
            (ok-injective (rw k at h)) (pushable-Same op row row' column e same k)
      | inr k ↦
          pushed-Same op row row' (is_pushable column) (to_conjunction_list e) pushed rest
            (λ p. pushable-Same op row row' column p same) (rw k at h)
    ]

-- two rows agree on the columns of some tables
abbrev pub AgreeOnTables : List String → Row → Row → Type 0
AgreeOnTables aliases row row' =
    (col : String) → contains aliases (before_dot col) ≡ true → row col ≡ row' col

contains-table_aliases :
    (cols : List String) (col : String)
    → contains cols col ≡ true
    → contains (table_aliases cols) (before_dot col) ≡ true
unfolding table_aliases contains
contains-table_aliases [] col h = absurd (cc)
contains-table_aliases (c ∷ cols) col h =
    contains-add (table_aliases cols) (before_dot c) (before_dot col)
    ∙ ground (
      arith,
      eq_iff c col,
      eq_iff (before_dot c) (before_dot col),
      contains-table_aliases cols col,
    )

over-Same :
    (op : Operation) (row row' : Row) (aliases : List String) (e : Expr)
    → AgreeOnTables aliases row row'
    → is_over aliases e ≡ true
    → Same op row row' e
over-Same op row row' aliases e agree h = holds_on-Agree op row row' e λ c k. agree c (
    is_subset-contains (table_aliases (get_columns_in_predicate e)) aliases (before_dot c) h
      (contains-table_aliases (get_columns_in_predicate e) c k))

-- Whether the part that is pushed for some tables holds of a row depends on nothing but the columns of
-- these tables: two rows that agree on them give one outcome.
pub extract_pushdown_predicate_for_alias-tables :
    (op : Operation) (row row' : Row) (e : Expr) (aliases : List String) (pushed rest : Option Expr)
    → AgreeOnTables aliases row row'
    → extract_pushdown_predicate_for_alias (some e) aliases ≡ ok (pushed, rest)
    → holds_opt_on op row pushed ≡ holds_opt_on op row' pushed
unfolding extract_pushdown_predicate_for_alias
extract_pushdown_predicate_for_alias-tables op row row' e aliases pushed rest agree h =
    pushed-Same op row row' (is_over aliases) (to_conjunction_list e) pushed rest
      (λ p. over-Same op row row' aliases p agree) h
