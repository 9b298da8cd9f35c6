-- ===== src/Optimizer/Tasks/Defs.antt =====
-- The tasks of the optimizer. A task changes the memo and pushes further tasks. What a rule raises, and
-- what a failed look-up raises, ends the optimization.
use eva.Optimizer.Memo.Binder.{Pattern, pattern_type}
use eva.Optimizer.Memo.Defs.{
  Ref, GroupExpression, mark_rule_explored, is_rule_explored, Memo, group_at, expr_at,
}
use eva.Optimizer.Operators.{GroupId, Operator, has_type, Tree}
use eva.Optimizer.Rules.RuleType.{RuleType, promise_of}
use eva.Prelude.{ℕ, Bool, not, ◌&&◌, List, [], ◌∷◌, leb, if◌then◌else◌, get_elem?, set}
use eva.Prelude.Result.{index_error, Result, ok, or_raise, ◌>>=◌}

-- A rule: what its class defines. `check` and `apply` see the memo, as the context shows it to them.
pub record Rule : Type 0 where
  pub rule_type : RuleType
  pub pattern : Pattern
  pub check : Tree → Memo → Result Bool
  pub apply : Tree → Memo → Result (List Tree)

-- `Rule.top_match`
unfoldable pub top_match : Rule → Operator → Bool
unfolding has_type
top_match rule opr = has_type (pattern_type rule.pattern) opr

pub data Task : Type 0 where
  top_down_rewrite : (root_expr : Ref) → (rule_set : List Rule) → Task
  bottom_up_rewrite : (root_expr : Ref) → (rule_set : List Rule) → (children_explored : Bool) → Task
  optimize_expression : (root_expr : Ref) → (explore : Bool) → Task
  apply_rule : (rule : Rule) → (root_expr : Ref) → (explore : Bool) → Task
  optimize_group : (group : ℕ) → Task
  optimize_inputs : (root_expr : Ref) → Task

-- the memo, and the stack of tasks with its top first
pub record OptimizerContext : Type 0 where
  pub memo : Memo
  pub task_stack : List Task

unfoldable pub push : Task → OptimizerContext → OptimizerContext
push t c = record c { task_stack = t ∷ c.task_stack }

-- `sorted(rules, key=lambda x: x.promise())`; the sort is stable
insert_rule : Rule → List Rule → List Rule
unfolding promise_of
insert_rule r [] = r ∷ []
insert_rule r (s ∷ rs) =
    let rest : List Rule = s ∷ insert_rule r rs in
    if leb (promise_of r.rule_type) (promise_of s.rule_type) then r ∷ s ∷ rs else rest

unfoldable pub sort_by_promise : List Rule → List Rule
unfolding insert_rule
sort_by_promise [] = []
sort_by_promise (r ∷ rs) = insert_rule r (sort_by_promise rs)

-- the rules that match the top of an expression, and, for the rewrites, were not explored
unfoldable pub matching_rules : Operator → List Rule → List Rule
matching_rules opr [] = []
matching_rules opr (r ∷ rs) =
    let rest : List Rule = matching_rules opr rs in if top_match r opr then r ∷ rest else rest

unfoldable pub valid_rules : GroupExpression → List Rule → List Rule
unfolding top_match is_rule_explored
valid_rules e [] = []
valid_rules e (r ∷ rs) =
    let rest : List Rule = valid_rules e rs in
    if not (is_rule_explored r.rule_type e) && top_match r e.opr then r ∷ rest else rest

-- `root_expr.mark_rule_explored(rule_type)`, on the shared object
unfoldable pub mark : Ref → RuleType → Memo → Result Memo
unfolding expr_at mark_rule_explored
mark r t m = expr_at m r >>= λ e. ok (record m { exprs = set m.exprs r (mark_rule_explored t e) })

-- `memo.groups[child].logical_exprs[0]`
unfoldable pub first_logical : Memo → GroupId → Result Ref
unfolding group_at
first_logical m g = group_at m g >>= λ grp. or_raise index_error (get_elem? grp.logical_exprs 0)

-- a task for the first expression of each child's group, pushed in order
unfoldable pub push_children :
    (Ref → Task) → List GroupId → OptimizerContext → Result OptimizerContext
unfolding first_logical push
push_children task [] c = ok c
push_children task (g ∷ gs) c =
    first_logical c.memo g >>= λ child. push_children task gs (push (task child) c)
