-- ===== src/Optimizer/Memo/Keeps.antt =====
-- What an operation on the memo leaves alone: the operators and children of the expressions that are
-- there, and the winners of the groups.
use eva.Optimizer.Memo.Defs.{Ref, GroupExpression, Winner, Group, Memo, set_group}
use eva.Prelude.{
  ℕ, zero, suc, ◌<◌, ◌≡◌, refl, sym, ap, subst, ◌∙◌, Option, none, some, List, [], ◌∷◌, ◌++◌, arith,
  length, get_elem?, set, get_elem?-set_self, get_elem?-set_ne,
}
use native.Mathlib.Decide.{ℕ_discrete}

abbrev pub winner_of : Option Group → Option Winner
winner_of none = none
winner_of (some grp) = grp.winner

-- the winner of a group, if the group is there and has one
unfoldable pub best : Memo → ℕ → Option Winner
best m g = winner_of (get_elem? m.groups g)

-- the expression at `r` is still there, with its operator and children
abbrev pub ExprKept : Memo → Ref → GroupExpression → Type 0
ExprKept m' r e =
    (e' : GroupExpression) × (get_elem? m'.exprs r ≡ some e')
    × (e'.children ≡ e.children)
    × (e'.opr ≡ e.opr)

pub record Keeps (m m' : Memo) : Type 0 where
  pub exprs_kept : (r : Ref) (e : GroupExpression) → get_elem? m.exprs r ≡ some e → ExprKept m' r e
  pub best_kept : (g : ℕ) → best m' g ≡ best m g

pub Keeps-refl : (m : Memo) → Keeps m m
Keeps-refl m = record { exprs_kept = λ r e h. (e, h, refl, refl); best_kept = λ g. refl }

pub Keeps-trans : (a b c : Memo) → Keeps a b → Keeps b c → Keeps a c
Keeps-trans a b c h k = record {
  exprs_kept = λ r e p.
      let (e1, p1, q1, s1) = h.exprs_kept r e p in
      let (e2, p2, q2, s2) = k.exprs_kept r e1 p1 in (e2, p2, q2 ∙ q1, s2 ∙ s1);
  best_kept = λ g. k.best_kept g ∙ h.best_kept g;
}

get_elem?-append {ℓ} :
    {A : Type ℓ} (xs ys : List A) (i : ℕ) (a : A)
    → get_elem? xs i ≡ some a
    → get_elem? (xs ++ ys) i ≡ some a
get_elem?-append [] ys i a h = absurd (cc)
get_elem?-append (x ∷ xs) ys zero a h = h
get_elem?-append (x ∷ xs) ys (suc i) a h = get_elem?-append xs ys i a h

pub get_elem?-lt {ℓ} :
    {A : Type ℓ} (xs : List A) (i : ℕ) (a : A) → get_elem? xs i ≡ some a → i < length xs
get_elem?-lt [] i a h = absurd (cc)
get_elem?-lt (x ∷ xs) zero a h = omega arith
get_elem?-lt (x ∷ xs) (suc i) a h = omega (arith, get_elem?-lt xs i a h)

-- a new object changes no other
pub Keeps-append_expr :
    (m : Memo) (e : GroupExpression) → Keeps m (record m { exprs = m.exprs ++ e ∷ [] })
unfolding best
Keeps-append_expr m e = record {
  exprs_kept = λ r e' p. (e', get_elem?-append m.exprs (e ∷ []) r e' p, refl, refl);
  best_kept = λ g. refl;
}

-- an object may change, but not its operator and children
pub Keeps-set_expr :
    (m : Memo) (r : Ref) (e e' : GroupExpression)
    → get_elem? m.exprs r ≡ some e
    → e'.children ≡ e.children
    → e'.opr ≡ e.opr
    → Keeps m (record m { exprs = set m.exprs r e' })
unfolding best
Keeps-set_expr m r e e' at hc ho = record {
  exprs_kept = λ s x p. elim (ℕ_discrete r s) [
    | yes q ↦ (
      e',
      subst (λ t. get_elem? (set m.exprs r e') t ≡ some e') q
          (get_elem?-set_self m.exprs r e' (get_elem?-lt m.exprs r e at)),
      hc ∙ ap (λ (z : GroupExpression). z.children) (same s x p q),
      ho ∙ ap (λ (z : GroupExpression). z.opr) (same s x p q),
    )
    | no q ↦ (x, get_elem?-set_ne m.exprs e' q ∙ p, refl, refl)
  ];
  best_kept = λ g. refl;
}
  where
    same : (s : Ref) (x : GroupExpression) → get_elem? m.exprs s ≡ some x → r ≡ s → e ≡ x
    same s x p q = let z : some e ≡ some x = sym at ∙ ap (get_elem? m.exprs) q ∙ p in cc

-- a group may change, but not its winner
pub Keeps-set_group :
    (m : Memo) (g : ℕ) (grp grp' : Group)
    → get_elem? m.groups g ≡ some grp
    → grp'.winner ≡ grp.winner
    → Keeps m (set_group g grp' m)
unfolding best set_group
Keeps-set_group m g grp grp' at hw = record {
  exprs_kept = λ r e p. (e, p, refl, refl);
  best_kept = λ h. elim (ℕ_discrete g h) [
    | yes q ↦
        subst (λ t. best (set_group g grp' m) t ≡ best m t) q
          (ap winner_of (get_elem?-set_self m.groups g grp' (get_elem?-lt m.groups g grp at))
            ∙ hw
            ∙ sym (ap winner_of at))
    | no q ↦ ap winner_of (get_elem?-set_ne m.groups grp' q)
  ];
}

-- a new group with no winner changes no winner
get_elem?-append_one :
    (gs : List Group) (grp : Group) (g : ℕ)
    → grp.winner ≡ none
    → winner_of (get_elem? (gs ++ grp ∷ []) g) ≡ winner_of (get_elem? gs g)
get_elem?-append_one [] grp zero h = h
get_elem?-append_one [] grp (suc g) h = refl
get_elem?-append_one (x ∷ gs) grp zero h = refl
get_elem?-append_one (x ∷ gs) grp (suc g) h = get_elem?-append_one gs grp g h

pub Keeps-append_group :
    (m : Memo) (grp : Group)
    → grp.winner ≡ none
    → Keeps m (record m { groups = m.groups ++ grp ∷ [] })
unfolding best
Keeps-append_group m grp h = record {
  exprs_kept = λ r e p. (e, p, refl, refl);
  best_kept = λ g. get_elem?-append_one m.groups grp g h;
}

-- the dictionary of hashes matters to neither
pub Keeps-group_exprs : (m : Memo) (d : List (ℕ × Ref)) → Keeps m (record m { group_exprs = d })
unfolding best
Keeps-group_exprs m d = record { exprs_kept = λ r e p. (e, p, refl, refl); best_kept = λ g. refl }
