-- ===== src/Expression/Evaluate/Defs.antt =====
-- `LogicalExpression.evaluate`, and the operations of `Batch` on a data frame of one column of
-- Booleans: its row labels, the label of its column (`None` for pandas' own 0), and its values. The
-- evaluation of the operands that are no logical expressions is a parameter.
use eva.Expression.Types.{
  ExpressionType, logical_and, logical_or, logical_not, eq_type, logical, Expr, node, nil, cons,
}
use eva.Prelude.{
  ℕ, ◌+◌, String, Bool, true, false, not, ◌&&◌, Option, none, some, List, [], ◌∷◌, map,
  if◌then◌else◌, get_elem?, set,
}
use eva.Prelude.Result.{
  assertion_error, index_error, key_error, value_error, unbound_local_error, unsupported, Result,
  err, ok, or_raise, ◌>>=◌,
}

pub record BoolFrame : Type 0 where
  pub index : List ℕ
  pub column : Option String
  pub values : List Bool

-- the labels that pandas gives to rows: `n` of them, from `k` on
abbrev pub labels_from {ℓ} : {X : Type ℓ} → ℕ → List X → List ℕ
labels_from k [] = []
labels_from k (x ∷ xs) = k ∷ labels_from (k + 1) xs

-- `pd.DataFrame(values)`
abbrev pub fresh : List Bool → BoolFrame
fresh values = record { index = labels_from 0 values; column = none; values = values }

abbrev pub all_values : Bool → List Bool → Bool
all_values b [] = true
all_values b (v ∷ vs) = (if b then v else not v) && all_values b vs

-- `Batch.all_true` and `Batch.all_false`
unfoldable pub all_true : BoolFrame → Bool
all_true frame = all_values true frame.values

unfoldable pub all_false : BoolFrame → Bool
all_false frame = all_values false frame.values

-- the labels of the rows whose value is wanted
abbrev pub labels_where : Bool → List ℕ → List Bool → List ℕ
labels_where b (i ∷ is) (v ∷ vs) =
    let rest : List ℕ = labels_where b is vs in if (if b then v else not v) then i ∷ rest else rest
labels_where b is vs = []

-- `self._frames[0]` is the column that is labelled 0
abbrev pub column_0 : BoolFrame → Result (List Bool)
column_0 frame = elim frame.column [ none ↦ ok frame.values | some label ↦ err key_error ]

-- `Batch.create_mask`, which returns labels, and `Batch.create_inverted_mask`
unfoldable pub create_mask : BoolFrame → Result (List ℕ)
create_mask frame = column_0 frame >>= λ values. ok (labels_where true frame.index values)

unfoldable pub create_inverted_mask : BoolFrame → Result (List ℕ)
create_inverted_mask frame = column_0 frame >>= λ values. ok (labels_where false frame.index values)

-- `batch[mask]`, by position
unfoldable pub rows_at {ℓ} : {X : Type ℓ} → List ℕ → List X → Result (List X)
rows_at [] rows = ok []
rows_at (i ∷ mask) rows =
    or_raise index_error (get_elem? rows i) >>= λ row. rows_at mask rows >>= λ rest. ok (row ∷ rest)

-- `self._frames.iloc[indices] = other._frames`, by position
unfoldable pub set_at : List ℕ → List Bool → List Bool → Result (List Bool)
set_at [] [] values = ok values
set_at (i ∷ indices) (v ∷ vs) values =
    or_raise index_error (get_elem? values i) >>= λ old. set_at indices vs (set values i v)
set_at indices vs values = err value_error

-- `Batch.update_indices`
unfoldable pub update_indices : BoolFrame → List ℕ → BoolFrame → Result BoolFrame
unfolding set_at
update_indices frame indices right =
    set_at indices right.values frame.values >>= λ values. ok (record frame { values = values })

-- `Batch.invert`
unfoldable pub invert : BoolFrame → BoolFrame
invert frame = record frame { values = map not frame.values }

-- the rows on which the right operand is evaluated, if it is
unfoldable pub mask_of : ExpressionType → BoolFrame → Result (Option (List ℕ))
unfolding all_false all_true create_mask create_inverted_mask
mask_of t left =
    if eq_type t logical_and
    then (if all_false left then ok none else create_mask left >>= λ mask. ok (some mask))
    else if eq_type t logical_or
    then (if all_true left then ok none else create_inverted_mask left >>= λ mask. ok (some mask))
    else err unbound_local_error

-- an expression of one operand; where it is not NOT, the method returns `None`
abbrev pub negated : ExpressionType → BoolFrame → Result BoolFrame
negated t frame = if eq_type t logical_not then ok (invert frame) else err unsupported

module _ {Row : Type 0} (atom : Expr → List Row → Result BoolFrame) where
  unfoldable pub evaluate : Expr → List Row → Result BoolFrame
  unfolding mask_of rows_at update_indices invert
  evaluate (node logical t r nil) rows = err assertion_error
  evaluate (node logical t r (cons a nil)) rows = evaluate a rows >>= negated t
  evaluate (node logical t r (cons a (cons b nil))) rows = evaluate a rows >>= λ left.
      mask_of t left >>= λ masked. elim masked [
        | none ↦ ok left
        | some mask ↦ rows_at mask rows >>= λ kept_rows.
            evaluate b kept_rows >>= λ right. update_indices left mask right
      ]
  evaluate (node logical t r (cons a (cons b (cons c es)))) rows = evaluate a rows >>= negated t
  evaluate e rows = atom e rows
