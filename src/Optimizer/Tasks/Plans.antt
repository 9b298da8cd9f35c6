-- ===== src/Optimizer/Tasks/Plans.antt =====
-- The winners of the groups make up whole plans, and no winner is its own descendant.
use eva.Optimizer.Memo.Defs.{GroupExpression, Winner, Group, Memo, set_group}
use eva.Optimizer.Memo.Keeps.{winner_of, best, Keeps, get_elem?-lt}
use eva.Optimizer.Operators.{GroupId, Operator}
use eva.Prelude.{
  ℕ, ◌+◌, ◌≤◌, ◌<◌, ◌≡◌, refl, sym, ap, subst, ◌∙◌, ◌≢◌, some, List, [], ◌∷◌, arith, get_elem?,
  get_elem?-set_self, get_elem?-set_ne,
}
use native.Mathlib.Decide.{ℕ_discrete}

-- A plan of a group at a cost: the winner, and plans of the groups of its children. The cost of the
-- winner's operator and the costs of the children's plans add up to no more.
mutual
  pub data Plan (cost : Operator → ℕ) (m : Memo) : GroupId → ℕ → Type 0 where
    plan_of :
        {g : ℕ} (w : Winner) (e : GroupExpression) (t : ℕ)
        → best m g ≡ some w
        → get_elem? m.exprs w.grp_expr ≡ some e
        → cost e.opr + t ≤ w.cost
        → Plans cost m e.children t
        → Plan cost m (some g) w.cost

  pub data Plans (cost : Operator → ℕ) (m : Memo) : List GroupId → ℕ → Type 0 where
    no_plans : {t : ℕ} → Plans cost m [] t
    more_plans :
        {g : GroupId} {gs : List GroupId} {t : ℕ} (c s : ℕ)
        → Plan cost m g c
        → Plans cost m gs s
        → c + s ≤ t
        → Plans cost m (g ∷ gs) t

-- every group that has a winner has a plan at the winner's cost
abbrev pub Planned : (Operator → ℕ) → Memo → Type 0
Planned cost m = (g : ℕ) (w : Winner) → best m g ≡ some w → Plan cost m (some g) w.cost

module _ (cost : Operator → ℕ) (m m' : Memo) (k : Keeps m m') where
  mutual
    Plan-Keeps : {g : GroupId} {c : ℕ} → Plan cost m g c → Plan cost m' g c
    Plan-Keeps (plan_of {g} w e t hb he below ps) =
        let (e', p, q, s) = k.exprs_kept w.grp_expr e he in
        plan_of w e' t (k.best_kept g ∙ hb) p (subst (λ o. cost o + t ≤ w.cost) (sym s) below)
          (subst (λ gs. Plans cost m' gs t) (sym q) (Plans-Keeps ps))

    Plans-Keeps : {gs : List GroupId} {t : ℕ} → Plans cost m gs t → Plans cost m' gs t
    Plans-Keeps no_plans = no_plans
    Plans-Keeps (more_plans c s p ps h) = more_plans c s (Plan-Keeps p) (Plans-Keeps ps) h

  -- what keeps the expressions and the winners keeps the plans
  pub Planned-Keeps : Planned cost m → Planned cost m'
  Planned-Keeps h g w p = Plan-Keeps (h g w (sym (k.best_kept g) ∙ p))

-- A new winner of the group `g0`, cheaper than the one before it, if there was one.
module _ (cost : Operator → ℕ) (m : Memo) (g0 : ℕ) (grp : Group) (w0 : Winner)
    (e0 : GroupExpression) (here : get_elem? m.groups g0 ≡ some grp)
    (at : get_elem? m.exprs w0.grp_expr ≡ some e0)
    (cheaper : (w : Winner) → best m g0 ≡ some w → w0.cost < w.cost) where
  abbrev with_winner : Memo
  with_winner = set_group g0 (record grp { winner = some w0 }) m

  best-with_winner_self : best with_winner g0 ≡ some w0
  unfolding best set_group
  best-with_winner_self = ap winner_of (
      get_elem?-set_self m.groups g0 (record grp { winner = some w0 })
        (get_elem?-lt m.groups g0 grp here))

  best-with_winner_ne : (g : ℕ) → g0 ≢ g → best with_winner g ≡ best m g
  unfolding best set_group
  best-with_winner_ne g h =
      ap winner_of (get_elem?-set_ne m.groups (record grp { winner = some w0 }) h)

  exprs-with_winner : with_winner.exprs ≡ m.exprs
  unfolding set_group
  exprs-with_winner = refl

  some-injective_w : (a b : Winner) → some a ≡ some b → a ≡ b
  some-injective_w a b h = cc

  mutual
    -- a plan that costs no more than the new winner does not come by its group
    Plan-below : {g : GroupId} {c : ℕ} → Plan cost m g c → c ≤ w0.cost → Plan cost with_winner g c
    Plan-below (plan_of {g} w e t hb he k ps) h =
        plan_of w e t
          (best-with_winner_ne g (λ q. absurd (omega (arith, cheaper w (ap (best m) q ∙ hb)))) ∙ hb)
          (ap (λ es. get_elem? es w.grp_expr) exprs-with_winner ∙ he) k
          (Plans-below ps (omega arith))

    Plans-below :
        {gs : List GroupId} {t : ℕ} → Plans cost m gs t → t ≤ w0.cost → Plans cost with_winner gs t
    Plans-below no_plans h = no_plans
    Plans-below (more_plans c s p ps k) h =
        more_plans c s (Plan-below p (omega arith)) (Plans-below ps (omega arith)) k

  module _ (t0 : ℕ) (own : cost e0.opr + t0 ≤ w0.cost)
      (children : Plans cost m e0.children t0) where
    Plan-new : Plan cost with_winner (some g0) w0.cost
    Plan-new =
        plan_of w0 e0 t0 best-with_winner_self
          (ap (λ es. get_elem? es w0.grp_expr) exprs-with_winner ∙ at) own
          (Plans-below children (omega arith))

    mutual
      -- any plan gets cheaper at most
      Plan-lower :
          {g : GroupId} {c : ℕ} → Plan cost m g c → (c' : ℕ) × (c' ≤ c) × Plan cost with_winner g c'
      Plan-lower (plan_of {g} w e t hb he k ps) = elim (ℕ_discrete g0 g) [
        | yes q ↦ (
          w0.cost,
          omega (arith, cheaper w (ap (best m) q ∙ hb)),
          subst (λ (n : ℕ). Plan cost with_winner (some n) w0.cost) q Plan-new,
        )
        | no q ↦ (
          w.cost,
          omega arith,
          plan_of w e t (best-with_winner_ne g q ∙ hb)
              (ap (λ es. get_elem? es w.grp_expr) exprs-with_winner ∙ he) k (Plans-lower ps),
        )
      ]

      Plans-lower : {gs : List GroupId} {t : ℕ} → Plans cost m gs t → Plans cost with_winner gs t
      Plans-lower no_plans = no_plans
      Plans-lower (more_plans c s p ps k) =
          let (c', h, p') = Plan-lower p in more_plans c' s p' (Plans-lower ps) (omega arith)

    pub Planned-with_winner : Planned cost m → Planned cost with_winner
    Planned-with_winner planned g w hb = elim (ℕ_discrete g0 g) [
      | yes q ↦
          let same : w0 ≡ w =
            some-injective_w w0 w (sym best-with_winner_self ∙ ap (best with_winner) q ∙ hb) in
          subst (λ (x : Winner). Plan cost with_winner (some g) x.cost) same
            (subst (λ (n : ℕ). Plan cost with_winner (some n) w0.cost) q Plan-new)
      | no q ↦ rebuild (planned g w (sym (best-with_winner_ne g q) ∙ hb)) q
    ]
      where
        rebuild :
            {g : ℕ} {c : ℕ} → Plan cost m (some g) c → g0 ≢ g → Plan cost with_winner (some g) c
        rebuild (plan_of {g} w e t hb he k ps) q =
            plan_of w e t (best-with_winner_ne g q ∙ hb)
              (ap (λ es. get_elem? es w.grp_expr) exprs-with_winner ∙ he) k (Plans-lower ps)
