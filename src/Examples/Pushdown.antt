-- ===== src/Examples/Pushdown.antt =====
-- The theorems on pushdown and on join keys, at `t.id > 3 AND u.kind = 7 AND t.id = u.id`.
use eva.Examples.Conditions.{column, number, compare, both, row_of}
use eva.Expression.Columns.{get_columns_in_predicate}
use eva.Expression.Conjunction.Defs.{to_conjunction_list, conjunction_list_to_expression_tree}
use eva.Expression.Conjunction.Meaning.{holds_opt}
use eva.Expression.Holds.{holds}
use eva.Expression.Ranges.Comparisons.{integer_operation}
use eva.Expression.Types.{
  compare_equal, compare_greater, eq_type, integer, unbound, TupleValue, comparison, Expr, etype,
}
use eva.Expression.Values.{Row, value_of}
use eva.Optimizer.Pushdown.Defs.{partition, table_aliases, extract_pushdown_predicate_for_alias}
use eva.Optimizer.Pushdown.JoinKeys.{
  orient, join_keys_of, collect_keys, extract_equi_join_keys, KeysMatch, EqualIsSound,
  extract_equi_join_keys-KeysMatch,
}
use eva.Optimizer.Pushdown.Meaning.{
  holds-extract_pushdown_predicate_for_alias, holds_opt_on, AgreeOnTables,
  extract_pushdown_predicate_for_alias-tables,
}
use eva.Prelude.{
  ℕ, ◌≡◌, refl, ap, subst, inl, inr, Bool, true, ◌&&◌, some, [], ◌∷◌, arith, str_eq, eq_iff,
  if◌then◌else◌, Bool-cases,
}
use eva.Prelude.Int.{ℤ, pos, negsuc, eqb_ℤ}
use eva.Prelude.Texts.{contains, update, is_subset, before_dot}

abbrev over_three : Expr
over_three = compare compare_greater (column "t" "t.id") (number 3)

abbrev is_seven : Expr
is_seven = compare compare_equal (column "u" "u.kind") (number 7)

abbrev same_id : Expr
same_id = compare compare_equal (column "t" "t.id") (column "u" "u.id")

abbrev predicate : Expr
predicate = both (both over_three is_seven) same_id

abbrev is_greater : Expr → Bool
is_greater e = eq_type (etype e) compare_greater

holds-extract_pushdown_predicate_for_alias_example :
    (holds_opt is_greater (some over_three) && holds_opt is_greater (some (both is_seven same_id)))
    ≡ holds is_greater predicate
unfolding extract_pushdown_predicate_for_alias to_conjunction_list
    conjunction_list_to_expression_tree partition table_aliases is_subset get_columns_in_predicate
    before_dot update
holds-extract_pushdown_predicate_for_alias_example =
    holds-extract_pushdown_predicate_for_alias is_greater predicate ("t" ∷ []) (some over_three)
      (some (both is_seven same_id)) refl

-- two rows that differ in a column of the table `u`
abbrev kind_of : ℕ → Row
kind_of n col = if str_eq col "u.kind" then integer (pos n) else integer (pos 7)

agree_on_t : AgreeOnTables ("t" ∷ []) (kind_of 1) (kind_of 2)
unfolding contains before_dot
agree_on_t col h = elim (Bool-cases (str_eq col "u.kind")) [
  | inl e ↦ absurd (not_of_t ((eq_iff col "u.kind").0 e))
  | inr e ↦ rw e refl
]
  where
    not_of_t : col ≡ "u.kind" → ⊥
    not_of_t p =
        let q : contains ("t" ∷ []) (before_dot "u.kind") ≡ true =
          subst (λ c. contains ("t" ∷ []) (before_dot c) ≡ true) p h in
        cc

extract_pushdown_predicate_for_alias-tables_example :
    holds_opt_on integer_operation (kind_of 1) (some over_three)
    ≡ holds_opt_on integer_operation (kind_of 2) (some over_three)
unfolding extract_pushdown_predicate_for_alias to_conjunction_list
    conjunction_list_to_expression_tree partition table_aliases is_subset get_columns_in_predicate
    before_dot update
extract_pushdown_predicate_for_alias-tables_example =
    extract_pushdown_predicate_for_alias-tables integer_operation (kind_of 1) (kind_of 2) predicate
      ("t" ∷ []) (some over_three) (some (both is_seven same_id)) agree_on_t refl

eqb_ℤ-eq : (a b : ℤ) → eqb_ℤ a b ≡ true → a ≡ b
eqb_ℤ-eq (pos m) (pos n) h = ap pos (ground arith)
eqb_ℤ-eq (negsuc m) (negsuc n) h = ap negsuc (ground arith)
eqb_ℤ-eq (pos m) (negsuc n) h = absurd (ground arith)
eqb_ℤ-eq (negsuc m) (pos n) h = absurd (ground arith)

pub integer-EqualIsSound : EqualIsSound integer_operation
integer-EqualIsSound comparison (integer a) (integer b) vs h = ap integer (eqb_ℤ-eq a b h)
integer-EqualIsSound _ _ _ _ h = cc

abbrev left_key : TupleValue
left_key = record { name = "t.id"; table_alias = "t"; col_object = unbound; col_alias = "t.id" }

abbrev right_key : TupleValue
right_key = record { name = "u.id"; table_alias = "u"; col_object = unbound; col_alias = "u.id" }

extract_equi_join_keys-KeysMatch_example :
    KeysMatch ("t" ∷ []) ("u" ∷ []) (row_of 1) (left_key ∷ []) (right_key ∷ [])
unfolding holds value_of extract_equi_join_keys collect_keys to_conjunction_list contains
    join_keys_of orient
extract_equi_join_keys-KeysMatch_example =
    extract_equi_join_keys-KeysMatch integer_operation ("t" ∷ []) ("u" ∷ []) (row_of 1) predicate
      (left_key ∷ []) (right_key ∷ []) integer-EqualIsSound refl refl
