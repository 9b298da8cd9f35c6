-- ===== src/Optimizer/Pushdown/JoinKeys.antt =====
-- `extract_equi_join_keys`: the columns that a join predicate equates. The aliases are given by their
-- names.
use eva.Expression.Conjunction.Defs.{to_conjunction_list}
use eva.Expression.Conjunction.Meaning.{all_hold-to_conjunction_list}
use eva.Expression.Holds.{holds, all_hold}
use eva.Expression.Types.{
  ExpressionType, compare_equal, eq_type, ExpressionReturnType, Value, TupleValue, ExpressionClass,
  Expr, tuple_value_expression, node, Exprs, cons, etype, children,
}
use eva.Expression.Values.{Row, Operation, value_of, values_of, truth, holds_on}
use eva.Prelude.{
  String, ◌≡◌, refl, ap, subst, ◌∙◌, inl, inr, true, ◌&&◌, Option, none, some, List, [], ◌∷◌, arith,
  if◌then◌else◌, Bool-cases, &&-eq-true,
}
use eva.Prelude.Result.{index_error, Result, ok, err, ◌>>=◌, >>=-eq-ok, ok-injective}
use eva.Prelude.Texts.{contains}

-- which of two columns belongs to the left table and which to the right one, if so they do
unfoldable pub orient :
    List String → List String → TupleValue → TupleValue → Option (TupleValue × TupleValue)
orient left_aliases right_aliases left_child right_child =
    if contains left_aliases left_child.table_alias
      && contains right_aliases right_child.table_alias
    then some (left_child, right_child)
    else if contains right_aliases left_child.table_alias
        && contains left_aliases right_child.table_alias
    then some (right_child, left_child)
    else none

children_keys : List String → List String → Exprs → Result (Option (TupleValue × TupleValue))
children_keys left_aliases right_aliases
      (cons (tuple_value_expression a) (cons (tuple_value_expression b) es)) =
    ok (orient left_aliases right_aliases a b)
children_keys left_aliases right_aliases (cons a (cons b es)) = ok none
children_keys left_aliases right_aliases es = err index_error

-- one round of the loop
unfoldable pub join_keys_of :
    List String → List String → Expr → Result (Option (TupleValue × TupleValue))
unfolding children_keys
join_keys_of left_aliases right_aliases pred =
    if eq_type (etype pred) compare_equal
    then children_keys left_aliases right_aliases (children pred)
    else ok none

abbrev pub add_keys :
    Option (TupleValue × TupleValue)
    → List TupleValue × List TupleValue
    → List TupleValue × List TupleValue
add_keys none keys = keys
add_keys (some (l, r)) (left_join_keys, right_join_keys) = (l ∷ left_join_keys, r ∷ right_join_keys)

unfoldable pub collect_keys :
    List String → List String → List Expr → Result (List TupleValue × List TupleValue)
collect_keys left_aliases right_aliases [] = ok ([], [])
collect_keys left_aliases right_aliases (pred ∷ preds) =
    join_keys_of left_aliases right_aliases pred >>= λ keys.
    collect_keys left_aliases right_aliases preds >>= λ rest. ok (add_keys keys rest)

unfoldable pub extract_equi_join_keys :
    Expr → List String → List String → Result (List TupleValue × List TupleValue)
extract_equi_join_keys join_predicate left_aliases right_aliases =
    to_conjunction_list join_predicate >>= collect_keys left_aliases right_aliases

-- the two lists pair up: each left key is of a left table, each right key of a right one, and the two
-- have one value on the row
module _ (left_aliases right_aliases : List String) (row : Row) where
  abbrev pub IsKeyPair : TupleValue → TupleValue → Type 0
  IsKeyPair l r =
      (contains left_aliases l.table_alias ≡ true)
      × (contains right_aliases r.table_alias ≡ true)
      × (row l.col_alias ≡ row r.col_alias)

  abbrev pub KeysMatch : List TupleValue → List TupleValue → Type 0
  KeysMatch [] [] = Unit
  KeysMatch (l ∷ ls) (r ∷ rs) = IsKeyPair l r × KeysMatch ls rs
  KeysMatch ls rs = ⊥

-- an equality that holds is one of equal values
abbrev pub EqualIsSound : Operation → Type 0
EqualIsSound op =
    (c : ExpressionClass) (a b : Value) (vs : List Value)
    → truth (op c compare_equal (a ∷ b ∷ vs)) ≡ true
    → a ≡ b

is_compare_equal : (t : ExpressionType) → eq_type t compare_equal ≡ true → t ≡ compare_equal
is_compare_equal compare_equal h = refl
is_compare_equal _ h = cc

module _ (op : Operation) (sound : EqualIsSound op) (left_aliases right_aliases : List String)
    (row : Row) where
  orient-IsKeyPair :
      (a b l r : TupleValue)
      → row a.col_alias ≡ row b.col_alias
      → orient left_aliases right_aliases a b ≡ some (l, r)
      → IsKeyPair left_aliases right_aliases row l r
  unfolding orient
  orient-IsKeyPair a b l r e h =
      elim (Bool-cases
        (contains left_aliases a.table_alias && contains right_aliases b.table_alias)) [
          | inl k ↦ ground arith
          | inr k ↦ ground arith
        ]

  equal-holds :
      (c : ExpressionClass) (t : ExpressionType) (ty : ExpressionReturnType) (a b : TupleValue)
      (es : Exprs)
      → eq_type t compare_equal ≡ true
      → holds_on op row
          (node c t ty (cons (tuple_value_expression a) (cons (tuple_value_expression b) es)))
        ≡ true
      → row a.col_alias ≡ row b.col_alias
  unfolding holds value_of
  equal-holds c compare_equal ty a b es k h =
      sound c (row a.col_alias) (row b.col_alias) (values_of op row es) h
  equal-holds c _ ty a b es k h = absurd (cc)

  join_keys_of-IsKeyPair :
      (pred : Expr) (l r : TupleValue)
      → holds_on op row pred ≡ true
      → join_keys_of left_aliases right_aliases pred ≡ ok (some (l, r))
      → IsKeyPair left_aliases right_aliases row l r
  unfolding join_keys_of
  join_keys_of-IsKeyPair
        (node c t ty (cons (tuple_value_expression a) (cons (tuple_value_expression b) es))) l r
        hold h =
      elim (Bool-cases (eq_type t compare_equal)) [
        | inl k ↦
            orient-IsKeyPair a b l r (equal-holds c t ty a b es k hold) (ok-injective (rw k at h))
        | inr k ↦ absurd (let z : ok none ≡ ok (some (l, r)) = rw k at h in cc)
      ]
  join_keys_of-IsKeyPair pred l r hold h = absurd (ground arith)

  add_keys-KeysMatch :
      (keys : Option (TupleValue × TupleValue)) (rest : List TupleValue × List TupleValue)
      → ((l r : TupleValue) → keys ≡ some (l, r) → IsKeyPair left_aliases right_aliases row l r)
      → KeysMatch left_aliases right_aliases row rest.0 rest.1
      → KeysMatch left_aliases right_aliases row (add_keys keys rest).0 (add_keys keys rest).1
  add_keys-KeysMatch none rest hk h = h
  add_keys-KeysMatch (some (l, r)) (ls, rs) hk h = (hk l r refl, h)

  collect_keys-KeysMatch :
      (preds : List Expr) (keys : List TupleValue × List TupleValue)
      → all_hold (λ e. truth (value_of op row e)) preds ≡ true
      → collect_keys left_aliases right_aliases preds ≡ ok keys
      → KeysMatch left_aliases right_aliases row keys.0 keys.1
  unfolding collect_keys
  collect_keys-KeysMatch [] keys hold h =
      subst
        (λ (k : List TupleValue × List TupleValue).
          KeysMatch left_aliases right_aliases row k.0 k.1)
        (ok-injective h) tt
  collect_keys-KeysMatch (pred ∷ preds) keys hold h =
      let (first, p, q) =
        >>=-eq-ok (join_keys_of left_aliases right_aliases pred)
          (λ k. collect_keys left_aliases right_aliases preds >>= λ rest. ok (add_keys k rest)) h in
      let (rest, u, v) =
        >>=-eq-ok (collect_keys left_aliases right_aliases preds) (λ rest. ok (add_keys first rest))
          q in
      let (now, later) =
        &&-eq-true (holds_on op row pred) (all_hold (λ e. truth (value_of op row e)) preds) hold in
      subst
        (λ (k : List TupleValue × List TupleValue).
          KeysMatch left_aliases right_aliases row k.0 k.1)
        (ok-injective v)
        (add_keys-KeysMatch first rest (λ l r e. join_keys_of-IsKeyPair pred l r now (p ∙ ap ok e))
          (collect_keys-KeysMatch preds rest later u))

-- The join keys that are found pair up: on every row that satisfies the join predicate, the left key and
-- the right key of a pair have one value, and they belong to the left and to the right tables, if an
-- equality that holds is one of equal values.
pub extract_equi_join_keys-KeysMatch :
    (op : Operation) (left_aliases right_aliases : List String) (row : Row) (e : Expr)
    (ls rs : List TupleValue)
    → EqualIsSound op
    → holds_on op row e ≡ true
    → extract_equi_join_keys e left_aliases right_aliases ≡ ok (ls, rs)
    → KeysMatch left_aliases right_aliases row ls rs
unfolding extract_equi_join_keys
extract_equi_join_keys-KeysMatch op left_aliases right_aliases row e ls rs sound hold h =
    let (preds, p, q) =
      >>=-eq-ok (to_conjunction_list e) (collect_keys left_aliases right_aliases) h in
    collect_keys-KeysMatch op sound left_aliases right_aliases row preds (ls, rs)
      (all_hold-to_conjunction_list (λ x. truth (value_of op row x)) e preds p ∙ hold) q
