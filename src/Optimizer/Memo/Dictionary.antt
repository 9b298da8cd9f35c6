-- ===== src/Optimizer/Memo/Dictionary.antt =====
-- The dictionary of hashes, and what an insertion makes of it.
use eva.Optimizer.Memo.Defs.{
  Ref, GroupExpression, Group, Memo, lookup, delete, store, group_at, set_group, get_table_aliases,
  file_expr, is_own, add_expr, hash_of, insert_expr, create_new_group, insert_new,
}
use eva.Optimizer.Memo.Keeps.{Keeps}
use eva.Optimizer.Memo.KeepsContext.{Keeps-insert_new}
use eva.Optimizer.Operators.{GroupId, Operator}
use eva.Prelude.{
  ℕ, ◌≡◌, refl, sym, ap, ap₂, subst, ◌∙◌, ◌⊎◌, inl, inr, Bool, true, false, none, some, List, [],
  ◌∷◌, ◌++◌, arith, ltb, ◌==◌, if◌then◌else◌, ==_iff, Bool-cases, length, get_elem?,
}
use eva.Prelude.Result.{ok, assert, ok-injective, >>=-eq-ok}

lookup-delete :
    (h k : ℕ) (d : List (ℕ × Ref)) → lookup h (delete k d) ≡ (if k == h then none else lookup h d)
unfolding lookup delete
lookup-delete h k [] = ground arith
lookup-delete h k ((j, r) ∷ d) = ground (arith, lookup-delete h k d)

pub lookup-store :
    (h k : ℕ) (r : Ref) (d : List (ℕ × Ref))
    → lookup h (store k r d) ≡ (if k == h then some r else lookup h d)
unfolding lookup store
lookup-store h k r d = ground (arith, lookup-delete h k d)

dict-add_expr :
    (r : Ref) (e : GroupExpression) (g : ℕ) (grp : Group) (m : Memo)
    → (add_expr r e g grp m).group_exprs ≡ m.group_exprs
unfolding add_expr set_group
dict-add_expr r e g grp m = by_case (is_own e.group_id grp.group_id)
  where
    by_case : (b : Bool) → (if b then file_expr r e g grp m else m).group_exprs ≡ m.group_exprs
    by_case true = refl
    by_case false = refl

some_ref-injective : (a b : Ref) → some a ≡ some b → a ≡ b
some_ref-injective a b h = cc

module _ (hash : Operator → List GroupId → ℕ) where
  -- what the dictionary says of a hash: the expression is there, and has the hash
  pub record IsIndexed (m : Memo) : Type 0 where
    pub indexed :
        (h : ℕ) (r : Ref)
        → lookup h m.group_exprs ≡ some r
        → (e : GroupExpression) × (get_elem? m.exprs r ≡ some e) × (hash e.opr e.children ≡ h)

  hash-kept :
      (e e' : GroupExpression) (h : ℕ)
      → e'.children ≡ e.children
      → e'.opr ≡ e.opr
      → hash e.opr e.children ≡ h
      → hash e'.opr e'.children ≡ h
  hash-kept e e' h hc ho p = ap₂ hash ho hc ∙ p

  -- an operation that keeps the expressions, and adds to the dictionary at most what is there
  pub IsIndexed-Keeps :
      (m m' : Memo)
      → Keeps m m'
      → ((h : ℕ) (r : Ref)
          → lookup h m'.group_exprs ≡ some r
          → (lookup h m.group_exprs ≡ some r)
            ⊎ ((e : GroupExpression) × (get_elem? m'.exprs r ≡ some e)
                × (hash e.opr e.children ≡ h)))
      → IsIndexed m
      → IsIndexed m'
  IsIndexed-Keeps m m' k old i = record {
    indexed = λ h r p. elim (old h r p) [
      | inl q ↦
          let (e, at, same) = i.indexed h r q in
          let (e', at', hc, ho) = k.exprs_kept r e at in (e', at', hash-kept e e' h hc ho same)
      | inr found ↦ found
    ];
  }

  dict-insert_expr :
      (r : Ref) (e : GroupExpression) (g : ℕ) (m m' : Memo)
      → insert_expr hash r e g m ≡ ok m'
      → m'.group_exprs ≡ store (hash_of hash e) r m.group_exprs
  unfolding insert_expr
  dict-insert_expr r e g m m' h =
      let (u, p, q) = >>=-eq-ok (assert (ltb g (length m.groups))) _ h in
      let (grp, here, k) = >>=-eq-ok (group_at m (some g)) _ q in
      sym (ap (λ (x : Memo). x.group_exprs) (ok-injective k))
      ∙ ap (store (hash_of hash e) r) (dict-add_expr r e g grp m)

  pub dict-insert_new :
      (g : GroupId) (r : Ref) (e : GroupExpression) (m m' : Memo)
      → insert_new hash g r e m ≡ ok m'
      → m'.group_exprs ≡ store (hash_of hash e) r m.group_exprs
  unfolding insert_new create_new_group
  dict-insert_new none r e m m' h =
      let (aliases, p, q) = >>=-eq-ok (get_table_aliases m e) _ h in
      dict-insert_expr r e (length m.groups)
        (record m {
          groups =
              m.groups
              ++ (record {
                group_id = length m.groups;
                aliases = aliases;
                logical_exprs = [];
                physical_exprs = [];
                winner = none;
              })
                ∷ [];
        })
        m' q
  dict-insert_new (some g) r e m m' h = dict-insert_expr r e g m m' h

  pub IsIndexed-insert_new :
      (g : GroupId) (r : Ref) (e : GroupExpression) (m m' : Memo)
      → get_elem? m.exprs r ≡ some e
      → insert_new hash g r e m ≡ ok m'
      → IsIndexed m
      → IsIndexed m'
  IsIndexed-insert_new g r e m m' at h i =
      let k : Keeps m m' = Keeps-insert_new hash g r e m m' at h in IsIndexed-Keeps m m' k (old k) i
    where
      new_entry :
          (j : ℕ) (s : Ref)
          → Keeps m m'
          → hash_of hash e == j ≡ true
          → some r ≡ some s
          → (e' : GroupExpression) × (get_elem? m'.exprs s ≡ some e')
            × (hash e'.opr e'.children ≡ j)
      new_entry j s k q p =
          let (e', at', hc, ho) = k.exprs_kept r e at in
          (
            e',
            subst (λ x. get_elem? m'.exprs x ≡ some e') (some_ref-injective r s p) at',
            hash-kept e e' j hc ho ((==_iff (hash_of hash e) j).0 q),
          )

      old :
          Keeps m m'
          → (j : ℕ) (s : Ref) → lookup j m'.group_exprs ≡ some s
          → (lookup j m.group_exprs ≡ some s)
            ⊎ ((e' : GroupExpression) × (get_elem? m'.exprs s ≡ some e')
                × (hash e'.opr e'.children ≡ j))
      old k j s p =
          let found : (if hash_of hash e == j then some r else lookup j m.group_exprs) ≡ some s =
            sym (
              ap (lookup j) (dict-insert_new g r e m m' h)
              ∙ lookup-store j (hash_of hash e) r m.group_exprs)
            ∙ p in
          elim (Bool-cases (hash_of hash e == j)) [
            | inl q ↦ inr (new_entry j s k q (rw q at found))
            | inr q ↦ inl (rw q at found)
          ]
