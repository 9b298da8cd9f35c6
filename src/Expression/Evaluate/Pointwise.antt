-- ===== src/Expression/Evaluate/Pointwise.antt =====
-- A condition on a batch is the condition on each of its rows.
use eva.Expression.Evaluate.Defs.{
  BoolFrame, labels_from, fresh, all_values, all_true, all_false, create_mask, create_inverted_mask,
  rows_at, update_indices, invert, mask_of, evaluate,
}
use eva.Expression.Evaluate.Masks.{is_wanted, mask_from, wanted_rows, rows_at-mask, set_at-mask}
use eva.Expression.Holds.{holds}
use eva.Expression.Types.{
  ExpressionType, logical_and, logical_or, logical_not, eq_type, ExpressionReturnType,
  ExpressionClass, comparison, logical, arithmetic, aggregation, case_when, function, Expr,
  tuple_value_expression, constant_value_expression, node, Exprs, nil, cons,
}
use eva.Prelude.{
  ℕ, ◌+◌, ◌≡◌, refl, ap, ap₂, ◌∙◌, inl, inr, Bool, true, false, not, ◌&&◌, ◌||◌, none, some, List,
  [], ◌∷◌, map, arith, if◌then◌else◌, Bool-cases, &&-eq-true,
}
use eva.Prelude.Result.{Result, ok, ◌>>=◌}
use mathlib.Core.Path.{fun_ext}

-- AND and OR have two operands and NOT has one; other expressions are atoms
unfoldable pub is_condition : Expr → Bool
is_condition (node logical t r (cons a nil)) =
    let p : Bool = is_condition a in eq_type t logical_not && p
is_condition (node logical t r (cons a (cons b nil))) =
    let p : Bool = is_condition a in
    let q : Bool = is_condition b in (eq_type t logical_and || eq_type t logical_or) && (p && q)
is_condition (node logical t r es) = false
is_condition (node c t r es) =
    not (eq_type t logical_and || (eq_type t logical_or || eq_type t logical_not))
is_condition e = true

holds-atom :
    (f : Expr → Bool) (c : ExpressionClass) (t : ExpressionType) (r : ExpressionReturnType)
    (es : Exprs)
    → not (eq_type t logical_and || (eq_type t logical_or || eq_type t logical_not)) ≡ true
    → f (node c t r es) ≡ holds f (node c t r es)
unfolding holds
holds-atom f c t r nil h = refl
holds-atom f c t r (cons a nil) h = ground arith
holds-atom f c t r (cons a (cons b es)) h = ground arith

-- an atom, on every row
holds_everywhere :
    {Row : Type 0} (truth_of : Expr → Row → Bool) (c : ExpressionClass) (t : ExpressionType)
    (r : ExpressionReturnType) (es : Exprs) (rows : List Row)
    → not (eq_type t logical_and || (eq_type t logical_or || eq_type t logical_not)) ≡ true
    → ok (fresh (map (truth_of (node c t r es)) rows))
      ≡ ok (fresh (map (λ row. holds (λ a. truth_of a row) (node c t r es)) rows))
holds_everywhere truth_of c t r es rows h =
    ap (λ f. ok (fresh (map f rows))) (fun_ext (λ row. holds-atom (λ a. truth_of a row) c t r es h))

module _ {Row : Type 0} (p q : Row → Bool) where
  labels-cong :
      (f : Row → Bool) (k : ℕ) (xs : List Row) → labels_from k (map p xs) ≡ labels_from k (map f xs)
  labels-cong f k [] = refl
  labels-cong f k (x ∷ xs) = ap (◌∷◌ k) (labels-cong f (k + 1) xs)

  -- where the left operand decides every row, it is the outcome
  decided :
      (b : Bool) (xs : List Row)
      → all_values (not b) (map p xs) ≡ true
      → map p xs ≡ map (λ x. if is_wanted b (p x) then q x else p x) xs
  decided b [] h = refl
  decided true (x ∷ xs) h =
      let here : p x ≡ false = ground arith in
      rw here (
        ap (◌∷◌ false) (decided true xs (&&-eq-true (not (p x)) (all_values false (map p xs)) h).1))
  decided false (x ∷ xs) h =
      let here : p x ≡ true = ground arith in
      rw here (ap (◌∷◌ true) (decided false xs (&&-eq-true (p x) (all_values true (map p xs)) h).1))

  -- the right operand, evaluated on the rows of the mask and put back
  masked_part :
      (b : Bool) (rows : List Row) (m : List Row → Result BoolFrame)
      → ((xs : List Row) → m xs ≡ ok (fresh (map q xs)))
      → (rows_at (mask_from b p 0 rows) rows >>= λ kept_rows.
          m kept_rows >>= λ right. update_indices (fresh (map p rows)) (mask_from b p 0 rows) right)
        ≡ ok (fresh (map (λ x. if is_wanted b (p x) then q x else p x) rows))
  unfolding update_indices
  masked_part b rows m right =
      let outcome : Row → Bool = λ x. if is_wanted b (p x) then q x else p x in
      rw (rows_at-mask b p rows, right (wanted_rows b p rows), set_at-mask b p q rows)
        (ap (λ labels. ok (record { index = labels; column = none; values = map outcome rows }))
          (labels-cong outcome 0 rows))

  short_circuit :
      (t : ExpressionType) (rows : List Row) (m : List Row → Result BoolFrame)
      → ((xs : List Row) → m xs ≡ ok (fresh (map q xs)))
      → (eq_type t logical_and || eq_type t logical_or) ≡ true
      → (mask_of t (fresh (map p rows)) >>= λ masked. elim masked [
        | none ↦ ok (fresh (map p rows))
        | some mask ↦ rows_at mask rows >>= λ kept_rows.
            m kept_rows >>= λ right. update_indices (fresh (map p rows)) mask right
      ])
        ≡ ok (fresh (map (λ x. if is_wanted (eq_type t logical_and) (p x) then q x else p x) rows))
  unfolding mask_of all_false all_true create_mask create_inverted_mask
  short_circuit t rows m right h = elim (Bool-cases (eq_type t logical_and)) [
    | inl e ↦ elim (Bool-cases (all_values false (map p rows))) [
      | inl k ↦ rw (e, k) (ap (λ vs. ok (fresh vs)) (decided true rows k))
      | inr k ↦ rw (e, k) (masked_part true rows m right)
    ]
    | inr e ↦
        let or : eq_type t logical_or ≡ true = rw e at h in
        elim (Bool-cases (all_values true (map p rows))) [
          | inl k ↦ rw (e, or, k) (ap (λ vs. ok (fresh vs)) (decided false rows k))
          | inr k ↦ rw (e, or, k) (masked_part false rows m right)
        ]
  ]

invert-map :
    {Row : Type 0} (p : Row → Bool) (xs : List Row)
    → invert (fresh (map p xs)) ≡ fresh (map (λ x. not (p x)) xs)
unfolding invert
invert-map p xs =
    ap₂ (λ labels vs. record { index = labels; column = none; values = vs })
      (labels-cong p p (λ x. not (p x)) 0 xs) (map-not p xs)
  where
    map-not :
        {Row : Type 0} (p : Row → Bool) (xs : List Row)
        → map not (map p xs) ≡ map (λ x. not (p x)) xs
    map-not p [] = refl
    map-not p (x ∷ xs) = ap (◌∷◌ (not (p x))) (map-not p xs)

module _ {Row : Type 0} (atom : Expr → List Row → Result BoolFrame)
    (truth_of : Expr → Row → Bool) where
  -- an operand that is no logical expression gives a new frame with one value for each row
  abbrev pub ByRows : Type 0
  ByRows = (e : Expr) (rows : List Row) → atom e rows ≡ ok (fresh (map (truth_of e) rows))

  -- the condition on one row
  abbrev pub holds_on_row : Expr → Row → Bool
  holds_on_row e row = holds (λ a. truth_of a row) e

  -- Where the operands that are no logical expressions are evaluated row by row, into frames with
  -- new labels, a condition evaluates to such a frame, whose values are those of the condition on
  -- each row: the rows that the right operand is not evaluated on are those that the left one decides.
  pub evaluate-by_rows :
      (e : Expr) (rows : List Row)
      → ByRows
      → is_condition e ≡ true
      → evaluate atom e rows ≡ ok (fresh (map (holds_on_row e) rows))
  unfolding evaluate holds is_condition
  evaluate-by_rows (tuple_value_expression v) rows by_rows h =
      by_rows (tuple_value_expression v) rows
  evaluate-by_rows (constant_value_expression v) rows by_rows h =
      by_rows (constant_value_expression v) rows
  evaluate-by_rows (node logical t r nil) rows by_rows h = absurd (cc)
  evaluate-by_rows (node logical t r (cons a nil)) rows by_rows h =
      let parts = &&-eq-true (eq_type t logical_not) (is_condition a) h in
      rw (evaluate-by_rows a rows by_rows parts.1, parts.0)
        (ap ok (invert-map (holds_on_row a) rows)
          ∙ ap (λ f. ok (fresh (map f rows)))
              (fun_ext (λ row. turned t (holds_on_row a row) _ parts.0)))
    where
      turned :
          (t : ExpressionType) (p u : Bool)
          → eq_type t logical_not ≡ true
          → not p ≡ (if eq_type t logical_not then not p else u)
      turned t p u h = rw h refl
  evaluate-by_rows (node logical t r (cons a (cons b nil))) rows by_rows h =
      let parts =
        &&-eq-true (eq_type t logical_and || eq_type t logical_or)
          (is_condition a && is_condition b) h in
      let both = &&-eq-true (is_condition a) (is_condition b) parts.1 in
      rw (evaluate-by_rows a rows by_rows both.0) (
        short_circuit (holds_on_row a) (holds_on_row b) t rows (evaluate atom b)
          (λ xs. evaluate-by_rows b xs by_rows both.1) parts.0
        ∙ ap (λ f. ok (fresh (map f rows)))
            (fun_ext (λ row. connected t (holds_on_row a row) (holds_on_row b row) _ parts.0)))
    where
      connected :
          (t : ExpressionType) (p q u : Bool)
          → (eq_type t logical_and || eq_type t logical_or) ≡ true
          → (if is_wanted (eq_type t logical_and) p then q else p)
            ≡ (if eq_type t logical_and then p && q else if eq_type t logical_or then p || q else u)
      connected t p q u h = ground arith
  evaluate-by_rows (node logical t r (cons a (cons b (cons c es)))) rows by_rows h = absurd (cc)
  evaluate-by_rows (node comparison t r es) rows by_rows h =
      by_rows (node comparison t r es) rows ∙ holds_everywhere truth_of comparison t r es rows h
  evaluate-by_rows (node arithmetic t r es) rows by_rows h =
      by_rows (node arithmetic t r es) rows ∙ holds_everywhere truth_of arithmetic t r es rows h
  evaluate-by_rows (node aggregation t r es) rows by_rows h =
      by_rows (node aggregation t r es) rows ∙ holds_everywhere truth_of aggregation t r es rows h
  evaluate-by_rows (node case_when t r es) rows by_rows h =
      by_rows (node case_when t r es) rows ∙ holds_everywhere truth_of case_when t r es rows h
  evaluate-by_rows (node (function name id cache) t r es) rows by_rows h =
      by_rows (node (function name id cache) t r es) rows
      ∙ holds_everywhere truth_of (function name id cache) t r es rows h
