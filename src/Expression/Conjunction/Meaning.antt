-- ===== src/Expression/Conjunction/Meaning.antt =====
-- The conversions between a condition and the list of its conjuncts keep its truth.
use eva.Expression.Conjunction.Defs.{
  to_conjunction_list, join_all, conjunction_list_to_expression_tree,
}
use eva.Expression.Holds.{holds, all_hold}
use eva.Expression.Types.{
  logical_and, eq_type, Expr, tuple_value_expression, constant_value_expression, node, nil, cons,
  logical_expression,
}
use eva.Prelude.{
  ◌≡◌, refl, inl, inr, Bool, true, ◌&&◌, Option, none, some, List, [], ◌∷◌, ◌++◌, map, arith,
  Bool-cases,
}
use eva.Prelude.Result.{Result, ok, err, ◌>>=◌}

pub all_hold-append :
    (atom : Expr → Bool) (xs ys : List Expr)
    → all_hold atom (xs ++ ys) ≡ (all_hold atom xs && all_hold atom ys)
all_hold-append atom [] ys = refl
all_hold-append atom (x ∷ xs) ys = ground (arith, all_hold-append atom xs ys)

all_hold-bind :
    (atom : Expr → Bool) (p q : Bool) (mx my : Result (List Expr)) (es : List Expr)
    → ((xs : List Expr) → mx ≡ ok xs → all_hold atom xs ≡ p)
    → ((ys : List Expr) → my ≡ ok ys → all_hold atom ys ≡ q)
    → (mx >>= λ xs. my >>= λ ys. ok (xs ++ ys)) ≡ ok es
    → all_hold atom es ≡ (p && q)
all_hold-bind atom p q (ok xs) (ok ys) es hx hy h =
    ground (arith, all_hold-append atom xs ys, hx xs refl, hy ys refl)
all_hold-bind atom p q (ok xs) (err e) es hx hy h = cc
all_hold-bind atom p q (err e) my es hx hy h = cc

-- A condition holds exactly when all the conjuncts hold that `to_conjunction_list` finds.
pub all_hold-to_conjunction_list :
    (atom : Expr → Bool) (e : Expr) (es : List Expr)
    → to_conjunction_list e ≡ ok es
    → all_hold atom es ≡ holds atom e
unfolding to_conjunction_list holds
all_hold-to_conjunction_list atom (tuple_value_expression v) es h = ground arith
all_hold-to_conjunction_list atom (constant_value_expression v) es h = ground arith
all_hold-to_conjunction_list atom (node c t r nil) es h = ground arith
all_hold-to_conjunction_list atom (node c t r (cons a nil)) es h = ground arith
all_hold-to_conjunction_list atom (node c t r (cons a (cons b rest))) es h =
    elim (Bool-cases (eq_type t logical_and)) [
      | inl e ↦ rw e (
          all_hold-bind atom (holds atom a) (holds atom b) (to_conjunction_list a)
            (to_conjunction_list b) es (all_hold-to_conjunction_list atom a)
            (all_hold-to_conjunction_list atom b) (rw e at h))
      | inr e ↦ rw e (ground arith)
    ]

-- no condition is a condition that holds
abbrev pub holds_opt : (Expr → Bool) → Option Expr → Bool
holds_opt atom none = true
holds_opt atom (some e) = holds atom e

holds_opt-join_all :
    (atom : Expr → Bool) (e : Expr) (es : List Expr)
    → holds_opt atom (join_all (some e) (map some es)) ≡ (holds atom e && all_hold atom es)
unfolding join_all holds
holds_opt-join_all atom e [] = ground arith
holds_opt-join_all atom e (x ∷ es) =
    ground (arith, holds_opt-join_all atom (logical_expression logical_and (some e) (some x)) es)

-- The tree that is built from a list holds exactly when every condition of the list does.
pub holds_opt-conjunction_list_to_expression_tree :
    (atom : Expr → Bool) (es : List Expr)
    → holds_opt atom (conjunction_list_to_expression_tree (map some es)) ≡ all_hold atom es
unfolding conjunction_list_to_expression_tree
holds_opt-conjunction_list_to_expression_tree atom [] = refl
holds_opt-conjunction_list_to_expression_tree atom (e ∷ es) = holds_opt-join_all atom e es
