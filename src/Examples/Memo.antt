-- ===== src/Examples/Memo.antt =====
-- The theorems on the memo, where LIMIT 10 is added to the group of a dummy table.
use eva.Expression.Types.{integer}
use eva.Optimizer.Memo.Context.{replace_expression}
use eva.Optimizer.Memo.Defs.{Ref, GroupExpression, new_expr, Memo, lookup, add_group_expr}
use eva.Optimizer.Memo.Dictionary.{IsIndexed}
use eva.Optimizer.Memo.Keeps.{ExprKept, Keeps}
use eva.Optimizer.Memo.KeepsContext.{Keeps-replace_expression}
use eva.Optimizer.Memo.Laws.{NoCollision, add_group_expr_sound}
use eva.Optimizer.Operators.{
  limit_opr, exchange_opr, GroupId, Operator, logical_operator, is_logical, tree, no_trees,
}
use eva.Prelude.{ℕ, zero, suc, ◌≡◌, refl, none, some, List, [], ◌∷◌, arith, get_elem?}
use eva.Prelude.Int.{pos}
use eva.Prelude.Result.{ok}

abbrev hash : Operator → List GroupId → ℕ
hash (logical_operator (limit_opr v)) gs = 2
hash opr gs = 1

abbrev limit : GroupExpression
limit = new_expr (logical_operator (limit_opr (integer (pos 10)))) (some 0 ∷ [])

abbrev exchange : GroupExpression
exchange = record (new_expr (logical_operator exchange_opr) []) { group_id = some 0 }

-- the memo that holds one expression
abbrev one : Memo
one = record {
  exprs = exchange ∷ [];
  groups =
      record {
        group_id = 0;
        aliases = [];
        logical_exprs = 0 ∷ [];
        physical_exprs = [];
        winner = none;
      }
      ∷ [];
  group_exprs = (1, 0) ∷ [];
}

-- the memo after LIMIT was added
abbrev two : Memo
two = record {
  exprs = exchange ∷ record limit { group_id = some 1 } ∷ [];
  groups =
      record {
        group_id = 0;
        aliases = [];
        logical_exprs = 0 ∷ [];
        physical_exprs = [];
        winner = none;
      }
      ∷ record {
        group_id = 1;
        aliases = [];
        logical_exprs = 1 ∷ [];
        physical_exprs = [];
        winner = none;
      }
      ∷ [];
  group_exprs = (2, 1) ∷ (1, 0) ∷ [];
}

added : add_group_expr hash limit none one ≡ ok (two, 1)
unfolding add_group_expr is_logical
added = refl

found_one :
    (h : ℕ) (r : Ref)
    → lookup h one.group_exprs ≡ some r
    → (e : GroupExpression) × (get_elem? one.exprs r ≡ some e) × (hash e.opr e.children ≡ h)
unfolding lookup
found_one h zero p = (exchange, refl, ground arith)
found_one h (suc r) p = absurd (ground arith)

IsIndexed-one : IsIndexed hash one
IsIndexed-one = record { indexed = found_one }

no_collision : NoCollision hash one limit
no_collision zero e' p q = absurd (cc)
no_collision (suc r) e' p q = absurd (cc)

add_group_expr_sound_example : ExprKept two 1 limit
add_group_expr_sound_example =
    add_group_expr_sound hash limit none one (two, 1) no_collision IsIndexed-one added

abbrev replaced : Memo
replaced = record {
  exprs =
      exchange
      ∷ record (new_expr (logical_operator (limit_opr (integer (pos 10)))) []) { group_id = some 0 }
      ∷ [];
  groups =
      record {
        group_id = 0;
        aliases = [];
        logical_exprs = 1 ∷ [];
        physical_exprs = [];
        winner = none;
      }
      ∷ [];
  group_exprs = (2, 1) ∷ [];
}

Keeps-replace_expression_example : Keeps one replaced
unfolding replace_expression is_logical
Keeps-replace_expression_example =
    Keeps-replace_expression hash (tree (logical_operator (limit_opr (integer (pos 10)))) no_trees)
      (some 0) one (replaced, 1) refl
