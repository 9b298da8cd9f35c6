-- ===== src/Expression/Conjunction/RoundTrip.antt =====
-- From a condition to its conjuncts, back to a tree, and to the conjuncts again.
use eva.Expression.Conjunction.Defs.{
  to_conjunction_list, join_all, conjunction_list_to_expression_tree,
}
use eva.Expression.Types.{
  logical_and, eq_type, Expr, tuple_value_expression, constant_value_expression, node, nil, cons,
  logical_expression,
}
use eva.Prelude.{
  ◌≡◌, refl, sym, ap, subst, ◌∙◌, inl, inr, Bool, true, not, ◌&&◌, some, List, [], ◌∷◌, ◌++◌, map,
  arith, if◌then◌else◌, Bool-cases, &&-eq-true,
}
use eva.Prelude.Result.{Result, ok, err, ◌>>=◌, ok-injective}
use mathlib.Core.List.{append-nil, append_assoc}

-- an AND lacks no operand, wherever `to_conjunction_list` looks for one
unfoldable pub has_operands : Expr → Bool
has_operands (tuple_value_expression v) = true
has_operands (constant_value_expression v) = true
has_operands (node c t r nil) = not (eq_type t logical_and)
has_operands (node c t r (cons a nil)) = not (eq_type t logical_and)
has_operands (node c t r (cons a (cons b es))) =
    let both : Bool = has_operands a && has_operands b in
    if eq_type t logical_and then both else true

-- Where no AND lacks an operand, `to_conjunction_list` returns a list.
pub to_conjunction_list_total :
    (e : Expr) → has_operands e ≡ true → (es : List Expr) × (to_conjunction_list e ≡ ok es)
unfolding to_conjunction_list has_operands
to_conjunction_list_total (tuple_value_expression v) h = (tuple_value_expression v ∷ [], refl)
to_conjunction_list_total (constant_value_expression v) h = (constant_value_expression v ∷ [], refl)
to_conjunction_list_total (node c t r nil) h = (node c t r nil ∷ [], ground arith)
to_conjunction_list_total (node c t r (cons a nil)) h = (node c t r (cons a nil) ∷ [], ground arith)
to_conjunction_list_total (node c t r (cons a (cons b rest))) h =
    elim (Bool-cases (eq_type t logical_and)) [
      | inl e ↦
          let both : (has_operands a && has_operands b) ≡ true = rw e at h in
          let (ha, hb) = &&-eq-true (has_operands a) (has_operands b) both in
          let (xs, hx) = to_conjunction_list_total a ha in
          let (ys, hy) = to_conjunction_list_total b hb in (xs ++ ys, rw (e, hx, hy))
      | inr e ↦ (node c t r (cons a (cons b rest)) ∷ [], rw e)
    ]

-- what `to_conjunction_list` returns whole
abbrev pub IsAtomic : Expr → Type 0
IsAtomic e = to_conjunction_list e ≡ ok (e ∷ [])

abbrev pub AllAtomic : List Expr → Type 0
AllAtomic [] = Unit
AllAtomic (e ∷ es) = IsAtomic e × AllAtomic es

pub AllAtomic-append : (xs ys : List Expr) → AllAtomic xs → AllAtomic ys → AllAtomic (xs ++ ys)
AllAtomic-append [] ys hx hy = hy
AllAtomic-append (x ∷ xs) ys hx hy = (hx.0, AllAtomic-append xs ys hx.1 hy)

AllAtomic-single :
    (e : Expr) (es : List Expr) → IsAtomic e → to_conjunction_list e ≡ ok es → AllAtomic es
AllAtomic-single e es p h = subst AllAtomic (ok-injective (sym p ∙ h)) (p, tt)

AllAtomic-bind :
    (mx my : Result (List Expr)) (es : List Expr)
    → ((xs : List Expr) → mx ≡ ok xs → AllAtomic xs)
    → ((ys : List Expr) → my ≡ ok ys → AllAtomic ys)
    → (mx >>= λ xs. my >>= λ ys. ok (xs ++ ys)) ≡ ok es
    → AllAtomic es
AllAtomic-bind (ok xs) (ok ys) es hx hy h =
    subst AllAtomic (ok-injective h) (AllAtomic-append xs ys (hx xs refl) (hy ys refl))
AllAtomic-bind (ok xs) (err e) es hx hy h = absurd (cc)
AllAtomic-bind (err e) my es hx hy h = absurd (cc)

-- The list that `to_conjunction_list` returns cannot be taken apart further: of each of its expressions
-- alone it returns that expression.
pub to_conjunction_list-AllAtomic :
    (e : Expr) (es : List Expr) → to_conjunction_list e ≡ ok es → AllAtomic es
unfolding to_conjunction_list
to_conjunction_list-AllAtomic (tuple_value_expression v) es h =
    AllAtomic-single (tuple_value_expression v) es refl h
to_conjunction_list-AllAtomic (constant_value_expression v) es h =
    AllAtomic-single (constant_value_expression v) es refl h
to_conjunction_list-AllAtomic (node c t r nil) es h = elim (Bool-cases (eq_type t logical_and)) [
  | inl e ↦ absurd (ground arith)
  | inr e ↦ AllAtomic-single (node c t r nil) es (rw e) h
]
to_conjunction_list-AllAtomic (node c t r (cons a nil)) es h =
    elim (Bool-cases (eq_type t logical_and)) [
      | inl e ↦ absurd (ground arith)
      | inr e ↦ AllAtomic-single (node c t r (cons a nil)) es (rw e) h
    ]
to_conjunction_list-AllAtomic (node c t r (cons a (cons b rest))) es h =
    elim (Bool-cases (eq_type t logical_and)) [
      | inl e ↦
          AllAtomic-bind (to_conjunction_list a) (to_conjunction_list b) es
            (to_conjunction_list-AllAtomic a) (to_conjunction_list-AllAtomic b) (rw e at h)
      | inr e ↦ AllAtomic-single (node c t r (cons a (cons b rest))) es (rw e) h
    ]

pub join_all-conjuncts :
    (p : Expr) (ps es : List Expr)
    → to_conjunction_list p ≡ ok ps
    → AllAtomic es
    → (t : Expr) × (join_all (some p) (map some es) ≡ some t)
      × (to_conjunction_list t ≡ ok (ps ++ es))
unfolding join_all to_conjunction_list
join_all-conjuncts p ps [] hp h = (p, refl, rw append-nil hp)
join_all-conjuncts p ps (x ∷ es) hp h =
    let (t, e, q) =
      join_all-conjuncts (logical_expression logical_and (some p) (some x)) (ps ++ x ∷ []) es
        (rw (hp, h.0)) h.1 in
    (t, e, q ∙ ap ok (append_assoc ps (x ∷ []) es))

-- A condition taken apart and put together again has the same conjuncts, in the same order.
pub conjuncts_round_trip :
    (e x : Expr) (es : List Expr)
    → to_conjunction_list e ≡ ok (x ∷ es)
    → (t : Expr) × (conjunction_list_to_expression_tree (map some (x ∷ es)) ≡ some t)
      × (to_conjunction_list t ≡ ok (x ∷ es))
unfolding conjunction_list_to_expression_tree
conjuncts_round_trip e x es h =
    let a : AllAtomic (x ∷ es) = to_conjunction_list-AllAtomic e (x ∷ es) h in
    join_all-conjuncts x (x ∷ []) es a.0 a.1
