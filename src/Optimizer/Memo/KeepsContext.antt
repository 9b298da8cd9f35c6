-- ===== src/Optimizer/Memo/KeepsContext.antt =====
-- The operations that put operator trees into the memo keep what is there.
use eva.Optimizer.Memo.Context.{
  xform_opr_to_group_expr, xform_children, add_opr_to_group, replace_expression,
}
use eva.Optimizer.Memo.Defs.{
  Ref, GroupExpression, Group, Memo, lookup, delete, store, group_at, expr_at, set_group,
  clear_grp_exprs, append_expr, get_table_aliases, is_own, add_expr, hash_of, find_duplicate_expr,
  insert_expr, create_new_group, insert_new, add_group_expr, delete_all, erase_group,
}
use eva.Optimizer.Memo.Keeps.{
  Keeps, Keeps-refl, Keeps-trans, Keeps-append_expr, Keeps-set_expr, Keeps-set_group,
  Keeps-append_group, Keeps-group_exprs,
}
use eva.Optimizer.Operators.{GroupId, Operator, dummy, Tree, tree, Trees, no_trees, more_trees}
use eva.Prelude.{
  ℕ, ◌≡◌, refl, ap, subst, ◌∙◌, inl, inr, Bool, true, false, none, some, List, [], ◌∷◌, ◌++◌, arith,
  ltb, if◌then◌else◌, Option-cases, length, get_elem?, set,
}
use eva.Prelude.Result.{key_error, ok, assert, or_raise, >>=-eq-ok, ok-injective, or_raise-eq-ok}

winner-append_expr :
    (opr : Operator) (r : Ref) (grp : Group) → (append_expr opr r grp).winner ≡ grp.winner
unfolding append_expr
winner-append_expr opr r grp = ground arith

Keeps-if : (b : Bool) (m m' : Memo) → Keeps m m' → Keeps m (if b then m' else m)
Keeps-if true m m' h = h
Keeps-if false m m' h = Keeps-refl m

-- the object at the reference has the expression's operator and children
Keeps-add_expr :
    (r : Ref) (e : GroupExpression) (g : ℕ) (grp : Group) (m : Memo)
    → get_elem? m.exprs r ≡ some e
    → get_elem? m.groups g ≡ some grp
    → Keeps m (add_expr r e g grp m)
unfolding add_expr
Keeps-add_expr r e g grp m at here =
    let e' : GroupExpression = record e { group_id = some grp.group_id } in
    let m1 : Memo = record m { exprs = set m.exprs r e' } in
    Keeps-if (is_own e.group_id grp.group_id) m (set_group g (append_expr e.opr r grp) m1) (
      Keeps-trans m m1 (set_group g (append_expr e.opr r grp) m1)
        (Keeps-set_expr m r e e' at refl refl)
        (Keeps-set_group m1 g grp (append_expr e.opr r grp) here (winner-append_expr e.opr r grp)))

module _ (hash : Operator → List GroupId → ℕ) where
  Keeps-insert_expr :
      (r : Ref) (e : GroupExpression) (g : ℕ) (m m' : Memo)
      → get_elem? m.exprs r ≡ some e
      → insert_expr hash r e g m ≡ ok m'
      → Keeps m m'
  unfolding insert_expr
  Keeps-insert_expr r e g m m' at h =
      let (u, p, q) = >>=-eq-ok (assert (ltb g (length m.groups))) _ h in
      let (grp, here, k) = >>=-eq-ok (group_at m (some g)) _ q in
      let m1 : Memo = add_expr r e g grp m in
      subst (Keeps m) (ok-injective k) (
        Keeps-trans m m1 (record m1 { group_exprs = store (hash_of hash e) r m1.group_exprs })
          (Keeps-add_expr r e g grp m at (or_raise-eq-ok key_error (get_elem? m.groups g) here))
          (Keeps-group_exprs m1 (store (hash_of hash e) r m1.group_exprs)))

  Keeps-create_new_group :
      (r : Ref) (e : GroupExpression) (m m' : Memo)
      → get_elem? m.exprs r ≡ some e
      → create_new_group hash r e m ≡ ok m'
      → Keeps m m'
  unfolding create_new_group
  Keeps-create_new_group r e m m' at h =
      let (aliases, p, q) = >>=-eq-ok (get_table_aliases m e) _ h in
      let grp : Group = record {
        group_id = length m.groups;
        aliases = aliases;
        logical_exprs = [];
        physical_exprs = [];
        winner = none;
      } in
      let m1 : Memo = record m { groups = m.groups ++ grp ∷ [] } in
      Keeps-trans m m1 m' (Keeps-append_group m grp refl)
        (Keeps-insert_expr r e (length m.groups) m1 m' at q)

  pub get_elem?-append_last :
      (es : List GroupExpression) (e : GroupExpression)
      → get_elem? (es ++ e ∷ []) (length es) ≡ some e
  get_elem?-append_last [] e = refl
  get_elem?-append_last (x ∷ es) e = get_elem?-append_last es e

  pub Keeps-insert_new :
      (g : GroupId) (r : Ref) (e : GroupExpression) (m m' : Memo)
      → get_elem? m.exprs r ≡ some e
      → insert_new hash g r e m ≡ ok m'
      → Keeps m m'
  unfolding insert_new
  Keeps-insert_new none r e m m' at h = Keeps-create_new_group r e m m' at h
  Keeps-insert_new (some g) r e m m' at h = Keeps-insert_expr r e g m m' at h

  -- A duplicate leaves the memo as it is; a new expression keeps what is there.
  pub Keeps-add_group_expr :
      (e : GroupExpression) (g : GroupId) (m : Memo) (done : Memo × Ref)
      → add_group_expr hash e g m ≡ ok done
      → Keeps m done.0
  unfolding add_group_expr
  Keeps-add_group_expr e g m done h = elim (Option-cases (find_duplicate_expr hash e m)) [
    | inr (r, p) ↦
        subst (λ (d : Memo × Ref). Keeps m d.0) (ok-injective (rw (p, add_group_expr) at h))
          (Keeps-refl m)
    | inl p ↦
        let e' : GroupExpression = record e { group_id = g } in
        let m1 : Memo = record m { exprs = m.exprs ++ e' ∷ [] } in
        let (m2, q, k) =
          >>=-eq-ok (insert_new hash g (length m.exprs) e' m1) _ (rw (p, add_group_expr) at h) in
        subst (λ (d : Memo × Ref). Keeps m d.0) (ok-injective k)
          (Keeps-trans m m1 m2 (Keeps-append_expr m e')
            (Keeps-insert_new g (length m.exprs) e' m1 m2 (get_elem?-append_last m.exprs e') q))
  ]

  Keeps-delete_all :
      (rs : List Ref) (m m' : Memo)
      → delete_all hash rs m ≡ ok m'
      → Keeps m m' × (m'.groups ≡ m.groups)
  unfolding delete_all
  Keeps-delete_all [] m m' h =
      subst (λ x. Keeps m x × (x.groups ≡ m.groups)) (ok-injective h) (Keeps-refl m, refl)
  Keeps-delete_all (r ∷ rs) m m' h =
      let (e, p, q) = >>=-eq-ok (expr_at m r) _ h in
      let (found, u, v) =
        >>=-eq-ok (or_raise key_error (lookup (hash_of hash e) m.group_exprs)) _ q in
      let d : List (ℕ × Ref) = delete (hash_of hash e) m.group_exprs in
      let m1 : Memo = record m { group_exprs = d } in
      let (k, same) = Keeps-delete_all rs m1 m' v in
      (Keeps-trans m m1 m' (Keeps-group_exprs m d) k, same)

  Keeps-erase_group : (g : GroupId) (m m' : Memo) → erase_group hash g m ≡ ok m' → Keeps m m'
  unfolding erase_group
  Keeps-erase_group none m m' h = absurd (cc)
  Keeps-erase_group (some g) m m' h =
      let (grp, p, q) = >>=-eq-ok (group_at m (some g)) _ h in
      let (m1, u, v) = >>=-eq-ok (delete_all hash grp.logical_exprs m) _ q in
      let (m2, w, x) = >>=-eq-ok (delete_all hash grp.physical_exprs m1) _ v in
      let (k1, s1) = Keeps-delete_all grp.logical_exprs m m1 u in
      let (k2, s2) = Keeps-delete_all grp.physical_exprs m1 m2 w in
      let at : get_elem? m2.groups g ≡ some grp =
        ap (λ gs. get_elem? gs g) (s2 ∙ s1) ∙ or_raise-eq-ok key_error (get_elem? m.groups g) p in
      subst (Keeps m) (ok-injective x) (
        Keeps-trans m m2 (set_group g (clear_grp_exprs grp) m2) (Keeps-trans m m1 m2 k1 k2)
          (Keeps-set_group m2 g grp (clear_grp_exprs grp) at (unfold clear_grp_exprs in refl)))

  mutual
    unfolding xform_opr_to_group_expr

    Keeps-xform :
        (t : Tree) (m : Memo) (done : Memo × GroupExpression)
        → xform_opr_to_group_expr hash t m ≡ ok done
        → Keeps m done.0
    Keeps-xform (tree opr ts) m done h =
        let (c, p, q) = >>=-eq-ok (xform_children hash ts m) _ h in
        subst (λ (d : Memo × GroupExpression). Keeps m d.0) (ok-injective q)
          (Keeps-xform_children ts m c p)

    Keeps-xform_children :
        (ts : Trees) (m : Memo) (done : Memo × List GroupId)
        → xform_children hash ts m ≡ ok done
        → Keeps m done.0
    Keeps-xform_children no_trees m done h =
        subst (λ (d : Memo × List GroupId). Keeps m d.0) (ok-injective h) (Keeps-refl m)
    Keeps-xform_children (more_trees (tree (dummy g o) us) ts) m done h =
        let (c, p, q) = >>=-eq-ok (xform_children hash ts m) _ h in
        subst (λ (d : Memo × List GroupId). Keeps m d.0) (ok-injective q)
          (Keeps-xform_children ts m c p)
    Keeps-xform_children (more_trees t ts) m done h =
        let (child, p, q) = >>=-eq-ok (xform_opr_to_group_expr hash t m) _ h in
        let (added, u, v) = >>=-eq-ok (add_group_expr hash child.1 none child.0) _ q in
        let (e, w, x) = >>=-eq-ok (expr_at added.0 added.1) _ v in
        let (c, y, z) = >>=-eq-ok (xform_children hash ts added.0) _ x in
        subst (λ (d : Memo × List GroupId). Keeps m d.0) (ok-injective z)
          (Keeps-trans m child.0 c.0 (Keeps-xform t m child p) (
            Keeps-trans child.0 added.0 c.0 (Keeps-add_group_expr child.1 none child.0 added u)
              (Keeps-xform_children ts added.0 c y)))

  pub Keeps-add_opr_to_group :
      (t : Tree) (g : GroupId) (m : Memo) (done : Memo × Ref)
      → add_opr_to_group hash t g m ≡ ok done
      → Keeps m done.0
  unfolding add_opr_to_group
  Keeps-add_opr_to_group t g m done h =
      let (x, p, q) = >>=-eq-ok (xform_opr_to_group_expr hash t m) _ h in
      Keeps-trans m x.0 done.0 (Keeps-xform t m x p) (Keeps-add_group_expr x.1 g x.0 done q)

  -- Replacing the expressions of a group, as a rewrite does, changes neither the operator nor the children
  -- of any expression that the memo held, wherever it is referred to, and no group's winner.
  pub Keeps-replace_expression :
      (t : Tree) (g : GroupId) (m : Memo) (done : Memo × Ref)
      → replace_expression hash t g m ≡ ok done
      → Keeps m done.0
  unfolding replace_expression
  Keeps-replace_expression t g m done h =
      let (x, p, q) = >>=-eq-ok (erase_group hash g m) _ h in
      Keeps-trans m x done.0 (Keeps-erase_group g m x p) (Keeps-add_opr_to_group t g x done q)
