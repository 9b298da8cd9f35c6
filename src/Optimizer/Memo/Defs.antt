-- ===== src/Optimizer/Memo/Defs.antt =====
-- The memo. Group expressions are shared objects: the memo keeps them in a list, where a reference is
-- a position, so that a change shows through every reference. Groups are numbered from 0 in the order
-- of their creation, and none is ever taken out, so that the dictionary of groups is a list.
use eva.Optimizer.Operators.{
  get_opr, query_derived_get_opr, function_scan_opr, GroupId, Operator, logical_operator,
  is_logical,
}
use eva.Optimizer.Rules.RuleType.{RuleType, rule_bit, eq_rule}
use eva.Prelude.{
  ℕ, String, Bool, true, false, ◌||◌, Option, none, some, List, [], ◌∷◌, ◌++◌, ltb, ◌==◌,
  if◌then◌else◌, length, get_elem?, set,
}
use eva.Prelude.Result.{key_error, unsupported, Result, ok, err, ◌>>=◌, ◌>>◌, assert, or_raise}

abbrev pub Ref : Type 0
Ref = ℕ

pub record GroupExpression : Type 0 where
  pub opr : Operator
  pub group_id : GroupId
  pub children : List GroupId
  pub rules_explored : List RuleType

-- `GroupExpression(opr, children=children)`
abbrev pub new_expr : Operator → List GroupId → GroupExpression
new_expr opr children = record {
  opr = opr;
  group_id = none;
  children = children;
  rules_explored = [];
}

unfoldable pub mark_rule_explored : RuleType → GroupExpression → GroupExpression
mark_rule_explored t e = record e { rules_explored = t ∷ e.rules_explored }

has_rule : RuleType → List RuleType → Bool
has_rule t [] = false
has_rule t (r ∷ rs) = eq_rule r t || has_rule t rs

-- `(explored & rule) == rule`, where `INVALID_RULE` has no bit
unfoldable pub is_rule_explored : RuleType → GroupExpression → Bool
unfolding has_rule
is_rule_explored t e = rule_bit t == 0 || has_rule t e.rules_explored

pub record Winner : Type 0 where
  pub cost : ℕ
  pub grp_expr : Ref

-- A group. The winners are a dictionary by property, and there is one property, `DEFAULT`.
pub record Group : Type 0 where
  pub group_id : ℕ
  pub aliases : List String
  pub logical_exprs : List Ref
  pub physical_exprs : List Ref
  pub winner : Option Winner

pub record Memo : Type 0 where
  pub exprs : List GroupExpression
  pub groups : List Group
  pub group_exprs : List (ℕ × Ref)

abbrev pub empty_memo : Memo
empty_memo = record { exprs = []; groups = []; group_exprs = [] }

unfoldable pub lookup : ℕ → List (ℕ × Ref) → Option Ref
lookup h [] = none
lookup h ((k, r) ∷ d) = if k == h then some r else lookup h d

-- `del d[h]`, of a key that is there
unfoldable pub delete : ℕ → List (ℕ × Ref) → List (ℕ × Ref)
delete h [] = []
delete h ((k, r) ∷ d) = let rest = delete h d in if k == h then rest else (k, r) ∷ rest

-- `d[h] = r`
unfoldable pub store : ℕ → Ref → List (ℕ × Ref) → List (ℕ × Ref)
unfolding delete
store h r d = (h, r) ∷ delete h d

-- `memo.groups[g]`
unfoldable pub group_at : Memo → GroupId → Result Group
group_at m none = err key_error
group_at m (some g) = or_raise key_error (get_elem? m.groups g)

-- the object behind a reference
unfoldable pub expr_at : Memo → Ref → Result GroupExpression
expr_at m r = or_raise unsupported (get_elem? m.exprs r)

unfoldable pub set_group : ℕ → Group → Memo → Memo
set_group g grp m = record m { groups = set m.groups g grp }

abbrev pub new_winner : Ref → ℕ → Winner
new_winner r cost = record { cost = cost; grp_expr = r }

-- a new winner is kept where there was none, or where it is cheaper
unfoldable pub cheaper_winner : Ref → ℕ → Option Winner → Option Winner
cheaper_winner r cost none = some (new_winner r cost)
cheaper_winner r cost (some w) = if ltb cost w.cost then some (new_winner r cost) else some w

unfoldable pub add_expr_cost : Ref → ℕ → Group → Group
unfolding cheaper_winner
add_expr_cost r cost grp = record grp { winner = cheaper_winner r cost grp.winner }

unfoldable pub clear_grp_exprs : Group → Group
clear_grp_exprs grp = record grp { logical_exprs = []; physical_exprs = [] }

-- `_add_logical_expr` and `_add_physical_expr`
unfoldable pub append_expr : Operator → Ref → Group → Group
append_expr opr r grp =
    if is_logical opr
    then record grp { logical_exprs = grp.logical_exprs ++ r ∷ [] }
    else record grp { physical_exprs = grp.physical_exprs ++ r ∷ [] }

-- The aliases that an operator adds to those of its children.
unfoldable pub own_aliases : Operator → List String
own_aliases (logical_operator (get_opr g)) = g.alias ∷ []
own_aliases (logical_operator (query_derived_get_opr alias p t)) = alias ∷ []
own_aliases (logical_operator (function_scan_opr a)) = a.alias.alias_name ∷ []
own_aliases opr = []

unfoldable pub child_aliases : Memo → List GroupId → Result (List String)
unfolding group_at
child_aliases m [] = ok []
child_aliases m (g ∷ gs) =
    group_at m g >>= λ grp. child_aliases m gs >>= λ rest. ok (grp.aliases ++ rest)

unfoldable pub get_table_aliases : Memo → GroupExpression → Result (List String)
unfolding child_aliases own_aliases
get_table_aliases m e = child_aliases m e.children >>= λ aliases. ok (aliases ++ own_aliases e.opr)

-- an expression is filed in a group, and is given its id
unfoldable pub file_expr : Ref → GroupExpression → ℕ → Group → Memo → Memo
unfolding append_expr set_group
file_expr r e g grp m =
    set_group g (append_expr e.opr r grp)
      (record m { exprs = set m.exprs r (record e { group_id = some grp.group_id }) })

-- whether an expression has no group yet, or the given one
abbrev pub is_own : GroupId → ℕ → Bool
is_own none g = true
is_own (some h) g = h == g

-- `group.add_expr(expr)`; an expression of another group is not filed
unfoldable pub add_expr : Ref → GroupExpression → ℕ → Group → Memo → Memo
unfolding file_expr
add_expr r e g grp m = if is_own e.group_id grp.group_id then file_expr r e g grp m else m

-- Python's `hash` of an operator and the ids of its children's groups is given.
module _ (hash : Operator → List GroupId → ℕ) where
  abbrev pub hash_of : GroupExpression → ℕ
  hash_of e = hash e.opr e.children

  unfoldable pub find_duplicate_expr : GroupExpression → Memo → Option Ref
  unfolding lookup
  find_duplicate_expr e m = lookup (hash_of e) m.group_exprs

  unfoldable pub insert_expr : Ref → GroupExpression → ℕ → Memo → Result Memo
  unfolding add_expr group_at store
  insert_expr r e g m =
      assert (ltb g (length m.groups))
      >> (group_at m (some g) >>= λ grp.
          let m' : Memo = add_expr r e g grp m in
          ok (record m' { group_exprs = store (hash_of e) r m'.group_exprs }))

  unfoldable pub create_new_group : Ref → GroupExpression → Memo → Result Memo
  unfolding get_table_aliases insert_expr
  create_new_group r e m =
      let g : ℕ = length m.groups in
      get_table_aliases m e >>= λ aliases. insert_expr r e g (record m {
        groups =
            m.groups
            ++ (record {
              group_id = g;
              aliases = aliases;
              logical_exprs = [];
              physical_exprs = [];
              winner = none;
            })
              ∷ [];
      })

  -- a new group where no group is given
  unfoldable pub insert_new : GroupId → Ref → GroupExpression → Memo → Result Memo
  unfolding create_new_group insert_expr
  insert_new none r e m = create_new_group r e m
  insert_new (some g) r e m = insert_expr r e g m

  -- A new object is made for the expression, and the reference that the memo has for it is returned.
  unfoldable pub add_group_expr : GroupExpression → GroupId → Memo → Result (Memo × Ref)
  unfolding find_duplicate_expr insert_new
  add_group_expr e g m =
      let r : Ref = length m.exprs in
      let e' : GroupExpression = record e { group_id = g } in
      let with_object : Memo = record m { exprs = m.exprs ++ e' ∷ [] } in
      elim (find_duplicate_expr e m) [
        | some duplicate ↦ ok (m, duplicate)
        | none ↦ insert_new g r e' with_object >>= λ m'. ok (m', r)
      ]

  -- `del self._group_exprs[hash(expr)]`, for every expression of a list
  unfoldable pub delete_all : List Ref → Memo → Result Memo
  unfolding expr_at lookup delete
  delete_all [] m = ok m
  delete_all (r ∷ rs) m = expr_at m r >>= λ e.
      or_raise key_error (lookup (hash_of e) m.group_exprs) >>= λ found.
      delete_all rs (record m { group_exprs = delete (hash_of e) m.group_exprs })

  unfoldable pub erase_group : GroupId → Memo → Result Memo
  unfolding group_at delete_all clear_grp_exprs set_group
  erase_group none m = err key_error
  erase_group (some g) m = group_at m (some g) >>= λ grp. delete_all grp.logical_exprs m >>= λ m1.
      delete_all grp.physical_exprs m1 >>= λ m2. ok (set_group g (clear_grp_exprs grp) m2)
