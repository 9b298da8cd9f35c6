-- ===== src/Examples/Conditions.antt =====
-- The theorems on conjunctions and on columns, at `id > 3 AND kind = 7 AND NOT id = 5`.
use eva.Expression.Conjunction.Defs.{to_conjunction_list, conjunction_list_to_expression_tree}
use eva.Expression.Conjunction.RoundTrip.{conjuncts_round_trip}
use eva.Expression.Types.{
  ExpressionType, compare_equal, compare_greater, logical_and, logical_or, logical_not, eq_type,
  integer, unbound, Expr, tuple_value_expression, constant_value_expression, etype,
  comparison_expression, logical_expression,
}
use eva.Expression.Values.{Row}
use eva.Prelude.{
  ℕ, String, ◌≡◌, refl, subst, inl, inr, Bool, true, none, some, [], ◌∷◌, map, str_eq, eq_iff,
  if◌then◌else◌, Bool-cases,
}
use eva.Prelude.Int.{pos}
use eva.Prelude.Result.{ok}
use eva.Prelude.Texts.{contains}

abbrev pub column : String → String → Expr
column table name =
    tuple_value_expression
      (record { name = name; table_alias = table; col_object = unbound; col_alias = name })

abbrev pub number : ℕ → Expr
number n = constant_value_expression (integer (pos n))

abbrev pub compare : ExpressionType → Expr → Expr → Expr
compare t a b = comparison_expression t (some a) (some b)

abbrev pub both : Expr → Expr → Expr
both a b = logical_expression logical_and (some a) (some b)

abbrev pub either : Expr → Expr → Expr
either a b = logical_expression logical_or (some a) (some b)

abbrev pub negated : Expr → Expr
negated a = logical_expression logical_not (some a) none

abbrev over_three : Expr
over_three = compare compare_greater (column "t" "t.id") (number 3)

abbrev is_seven : Expr
is_seven = compare compare_equal (column "u" "u.kind") (number 7)

abbrev not_five : Expr
not_five = negated (compare compare_equal (column "t" "t.id") (number 5))

abbrev condition : Expr
condition = both (both over_three is_seven) not_five

-- an atom holds where it is `id > 3`
abbrev is_greater : Expr → Bool
is_greater e = eq_type (etype e) compare_greater

conjuncts_round_trip_example :
    (t : Expr) × (conjunction_list_to_expression_tree
        (map some (over_three ∷ is_seven ∷ not_five ∷ []))
      ≡ some t)
    × (to_conjunction_list t ≡ ok (over_three ∷ is_seven ∷ not_five ∷ []))
unfolding to_conjunction_list
conjuncts_round_trip_example =
    conjuncts_round_trip (both over_three (both is_seven not_five)) over_three
      (is_seven ∷ not_five ∷ []) refl

-- two rows that differ in a column that the condition does not name
abbrev pub row_of : ℕ → Row
row_of n col = if str_eq col "t.name" then integer (pos n) else integer (pos 7)

agree_on :
    (col : String) → contains ("t.id" ∷ "u.kind" ∷ []) col ≡ true → row_of 1 col ≡ row_of 2 col
unfolding contains
agree_on col h = elim (Bool-cases (str_eq col "t.name")) [
  | inl e ↦ absurd (other_column ((eq_iff col "t.name").0 e))
  | inr e ↦ rw e refl
]
  where
    other_column : col ≡ "t.name" → ⊥
    other_column p =
        let q : contains ("t.id" ∷ "u.kind" ∷ []) "t.name" ≡ true =
          subst (λ c. contains ("t.id" ∷ "u.kind" ∷ []) c ≡ true) p h in
        cc
