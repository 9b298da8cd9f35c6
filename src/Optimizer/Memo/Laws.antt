-- ===== src/Optimizer/Memo/Laws.antt =====
-- The memo holds an expression once: the dictionary of hashes finds it again.
use eva.Optimizer.Memo.Defs.{
  Ref, GroupExpression, Memo, lookup, hash_of, find_duplicate_expr, insert_new, add_group_expr,
}
use eva.Optimizer.Memo.Dictionary.{
  lookup-store, IsIndexed, IsIndexed-Keeps, dict-insert_new, IsIndexed-insert_new,
}
use eva.Optimizer.Memo.Keeps.{ExprKept, Keeps, Keeps-append_expr}
use eva.Optimizer.Memo.KeepsContext.{get_elem?-append_last, Keeps-insert_new}
use eva.Optimizer.Operators.{GroupId, Operator}
use eva.Prelude.{
  ℕ, ◌≡◌, refl, sym, ap, subst, ◌∙◌, ◌⊎◌, inl, inr, some, List, [], ◌∷◌, ◌++◌, arith, Option-cases,
  length, get_elem?,
}
use eva.Prelude.Result.{ok, ok-injective, >>=-eq-ok}

module _ (hash : Operator → List GroupId → ℕ) where
  -- the two ways in which an expression is added
  add_group_expr_cases :
      (e : GroupExpression) (g : GroupId) (m : Memo) (done : Memo × Ref)
      → add_group_expr hash e g m ≡ ok done
      → ((find_duplicate_expr hash e m ≡ some done.1) × (m ≡ done.0))
        ⊎ (insert_new hash g
              (length m.exprs)
              (record e { group_id = g })
              (record m { exprs = m.exprs ++ (record e { group_id = g }) ∷ [] })
            ≡ ok done.0)
          × (length m.exprs ≡ done.1)
  unfolding add_group_expr
  add_group_expr_cases e g m done h = elim (Option-cases (find_duplicate_expr hash e m)) [
    | inr (r, p) ↦
        let q : (m, r) ≡ done = ok-injective (rw (p, add_group_expr) at h) in
        inl (p ∙ ap some (ap (λ (d : Memo × Ref). d.1) q), ap (λ (d : Memo × Ref). d.0) q)
    | inl p ↦
        let (m2, q, k) =
          >>=-eq-ok
            (insert_new hash g (length m.exprs) (record e { group_id = g })
              (record m { exprs = m.exprs ++ (record e { group_id = g }) ∷ [] }))
            _ (rw (p, add_group_expr) at h) in
        let z : (m2, length m.exprs) ≡ done = ok-injective k in
        inr (q ∙ ap ok (ap (λ (d : Memo × Ref). d.0) z), ap (λ (d : Memo × Ref). d.1) z)
  ]

  -- Adding an expression to a memo whose dictionary of hashes is in order leaves it in order: what it says
  -- of a hash is in the memo and has that hash.
  pub IsIndexed-add_group_expr :
      (e : GroupExpression) (g : GroupId) (m : Memo) (done : Memo × Ref)
      → IsIndexed hash m
      → add_group_expr hash e g m ≡ ok done
      → IsIndexed hash done.0
  IsIndexed-add_group_expr e g m done i h =
      let e' : GroupExpression = record e { group_id = g } in
      let m1 : Memo = record m { exprs = m.exprs ++ e' ∷ [] } in
      elim (add_group_expr_cases e g m done h) [
        | inl (p, same) ↦ subst (IsIndexed hash) same i
        | inr (p, same) ↦
            IsIndexed-insert_new hash g (length m.exprs) e' m1 done.0
              (get_elem?-append_last hash m.exprs e') p
              (IsIndexed-Keeps hash m m1 (Keeps-append_expr m e') (λ j s q. inl q) i)
      ]

  -- An expression that was added is found again, under the reference that was returned.
  pub find_duplicate_expr-add_group_expr :
      (e : GroupExpression) (g : GroupId) (m : Memo) (done : Memo × Ref)
      → add_group_expr hash e g m ≡ ok done
      → find_duplicate_expr hash e done.0 ≡ some done.1
  unfolding find_duplicate_expr
  find_duplicate_expr-add_group_expr e g m done h = elim (add_group_expr_cases e g m done h) [
    | inl (p, same) ↦
        subst (λ (x : Memo). lookup (hash_of hash e) x.group_exprs ≡ some done.1) same p
    | inr (p, same) ↦
        ap (lookup (hash_of hash e)) (
          dict-insert_new hash g (length m.exprs) (record e { group_id = g })
            (record m { exprs = m.exprs ++ (record e { group_id = g }) ∷ [] }) done.0 p)
        ∙ lookup-store (hash_of hash e) (hash_of hash e) (length m.exprs) m.group_exprs
        ∙ ground arith
  ]

  -- Adding an expression a second time, into whatever group, changes nothing.
  pub add_group_expr_idem :
      (e : GroupExpression) (g g' : GroupId) (m : Memo) (done : Memo × Ref)
      → add_group_expr hash e g m ≡ ok done
      → add_group_expr hash e g' done.0 ≡ ok done
  unfolding add_group_expr
  add_group_expr_idem e g g' m done h =
      rw (find_duplicate_expr-add_group_expr e g m done h, add_group_expr) refl

  -- no expression of the memo has the hash of e, unless it has its operator and its children
  abbrev pub NoCollision : Memo → GroupExpression → Type 0
  NoCollision m e =
      (r : Ref) (e' : GroupExpression)
      → get_elem? m.exprs r ≡ some e'
      → hash e'.opr e'.children ≡ hash_of hash e
      → (e.children ≡ e'.children) × (e.opr ≡ e'.opr)

  -- What the memo returns for an expression has its operator and its children, if the dictionary of hashes
  -- is in order and the hash collides with no other.
  pub add_group_expr_sound :
      (e : GroupExpression) (g : GroupId) (m : Memo) (done : Memo × Ref)
      → NoCollision m e
      → IsIndexed hash m
      → add_group_expr hash e g m ≡ ok done
      → ExprKept done.0 done.1 e
  unfolding find_duplicate_expr
  add_group_expr_sound e g m done apart i h = elim (add_group_expr_cases e g m done h) [
    | inl (p, same) ↦
        let (e', at, q) = i.indexed (hash_of hash e) done.1 p in
        let (hc, ho) = apart done.1 e' at q in
        subst (λ x. ExprKept x done.1 e) same (e', at, sym hc, sym ho)
    | inr (p, same) ↦
        let e1 : GroupExpression = record e { group_id = g } in
        let at : get_elem? (m.exprs ++ e1 ∷ []) (length m.exprs) ≡ some e1 =
          get_elem?-append_last hash m.exprs e1 in
        let k : Keeps (record m { exprs = m.exprs ++ e1 ∷ [] }) done.0 =
          Keeps-insert_new hash g (length m.exprs) e1 (record m { exprs = m.exprs ++ e1 ∷ [] })
            done.0 at p in
        subst (λ x. ExprKept done.0 x e) same (k.exprs_kept (length m.exprs) e1 at)
  ]
