-- ===== src/Optimizer/StatementToPlan/Implemented.antt =====
-- Every operator that the converter makes for a statement has an implementation rule.
use eva.Optimizer.OperatorType.{
  logicalinsert, logicaldelete, logicalcreate, logicalrename, logical_drop_object,
  logicalcreatefunction, logicalloaddata, logical_show, logicalexplain, logicalcreateindex,
}
use eva.Optimizer.Operators.{LogicalOperator, explain_opr, statement_opr, logical_type, Tree}
use eva.Optimizer.StatementToPlan.Coverage.{
  has_rule, is_implemented, is_direct, is_direct_link, implementation_rules_of,
}
use eva.Optimizer.StatementToPlan.Defs.{put_above, visit_select, visit_query, visit}
use eva.Optimizer.StatementToPlan.ImplementedQueries.{
  implemented-alone, implemented1, implemented-plan_of_select,
}
use eva.Optimizer.StatementToPlan.Independent.{
  plan_of_select, has_tables, has_tables_link, kept, visit_select-kept,
}
use eva.Parser.Statements.{
  SelectStatement, UnionLink, no_link, union_link, Statement, select_query, create_table_statement,
  create_function_statement, explain_statement, insert_table_statement, rename_table_statement,
  drop_object_statement, load_data_statement, show_statement, create_index_statement,
  delete_table_statement, other_statement,
}
use eva.Prelude.{
  ◌≡◌, refl, sym, subst, ◌∙◌, Bool, true, false, ◌&&◌, Option, none, some, &&-eq-true,
}
use eva.Prelude.Result.{Result, err, ok, ◌>>=◌}

-- a statement that a visit is for, whose queries have FROM clauses and nothing that is to be taken away
unfoldable pub is_direct_statement : Statement → Bool
unfolding has_tables is_direct
is_direct_statement (select_query s) = has_tables s && is_direct s
is_direct_statement (create_table_statement n query) = has_tables_link query && is_direct_link query
is_direct_statement (create_function_statement n query) =
    has_tables_link query && is_direct_link query
is_direct_statement (explain_statement s) = is_direct_statement s
is_direct_statement (other_statement n) = false
is_direct_statement s = true

kept-plan : (m : Result Tree) (plan : Tree) → kept m ≡ ok (some plan) → m ≡ ok plan
kept-plan (ok p) plan h = cc
kept-plan (err e) plan h = absurd (cc)

module _ (ray : Bool) where
  implemented-select :
      (s : SelectStatement) (before : Option Tree) (plan : Tree)
      → (has_tables s && is_direct s) ≡ true
      → visit_select s before ≡ ok (some plan)
      → is_implemented (implementation_rules_of ray) plan ≡ true
  implemented-select s before plan k h =
      let fine = &&-eq-true (has_tables s) (is_direct s) k in
      implemented-plan_of_select ray s plan fine.1
        (kept-plan (plan_of_select s) plan (sym (visit_select-kept s before fine.0) ∙ h))

  implemented-put_above :
      (opr : LogicalOperator) (m : Result (Option Tree)) (plan : Tree)
      → has_rule (implementation_rules_of ray) (logical_type opr) 1 ≡ true
      → ((p : Tree) → m ≡ ok (some p) → is_implemented (implementation_rules_of ray) p ≡ true)
      → (m >>= put_above opr) ≡ ok (some plan)
      → is_implemented (implementation_rules_of ray) plan ≡ true
  unfolding put_above
  implemented-put_above opr (ok (some p)) plan rule done h =
      subst (λ t. is_implemented (implementation_rules_of ray) t ≡ true) (made h)
        (implemented1 ray opr p rule (done p refl))
    where
      made : {a b : Tree} → ok (some a) ≡ ok (some b) → a ≡ b
      made e = cc
  implemented-put_above opr (ok none) plan rule done h = absurd (cc)
  implemented-put_above opr (err e) plan rule done h = absurd (cc)

  implemented-visit_query :
      (opr : LogicalOperator) (query : UnionLink) (before : Option Tree) (plan : Tree)
      → has_rule (implementation_rules_of ray) (logical_type opr) 0 ≡ true
      → has_rule (implementation_rules_of ray) (logical_type opr) 1 ≡ true
      → (has_tables_link query && is_direct_link query) ≡ true
      → visit_query opr query before ≡ ok (some plan)
      → is_implemented (implementation_rules_of ray) plan ≡ true
  unfolding visit_query has_tables is_direct
  implemented-visit_query opr no_link before plan rule rule_above k h =
      implemented-alone ray opr plan rule h
  implemented-visit_query opr (union_link query) before plan rule rule_above k h =
      implemented-put_above opr (visit_select query before) plan rule_above
        (λ p. implemented-select query before p k) h

-- the operators of the other statements
statement_rule :
    (ray : Bool)
    → (has_rule (implementation_rules_of ray) logicalcreate 0 ≡ true)
      × (has_rule (implementation_rules_of ray) logicalcreate 1 ≡ true)
      × (has_rule (implementation_rules_of ray) logicalcreatefunction 0 ≡ true)
      × (has_rule (implementation_rules_of ray) logicalcreatefunction 1 ≡ true)
      × (has_rule (implementation_rules_of ray) logicalexplain 1 ≡ true)
      × (has_rule (implementation_rules_of ray) logicalinsert 0 ≡ true)
      × (has_rule (implementation_rules_of ray) logicalrename 0 ≡ true)
      × (has_rule (implementation_rules_of ray) logical_drop_object 0 ≡ true)
      × (has_rule (implementation_rules_of ray) logicalloaddata 0 ≡ true)
      × (has_rule (implementation_rules_of ray) logical_show 0 ≡ true)
      × (has_rule (implementation_rules_of ray) logicalcreateindex 0 ≡ true)
      × (has_rule (implementation_rules_of ray) logicaldelete 0 ≡ true)
unfolding has_rule implementation_rules_of
statement_rule true = (refl, refl, refl, refl, refl, refl, refl, refl, refl, refl, refl, refl)
statement_rule false = (refl, refl, refl, refl, refl, refl, refl, refl, refl, refl, refl, refl)

-- Every operator of the plan of a statement has an implementation rule that matches it whatever its
-- children are, with Ray or without, provided that the statement samples no table, calls no
-- EXTRACT_OBJECT as a table and has a FROM clause in each of its queries.
pub visit-implemented :
    (ray : Bool) (s : Statement) (before : Option Tree) (plan : Tree)
    → is_direct_statement s ≡ true
    → visit s before ≡ ok (some plan)
    → is_implemented (implementation_rules_of ray) plan ≡ true
unfolding visit is_direct_statement
visit-implemented ray (select_query s) before plan k h = implemented-select ray s before plan k h
visit-implemented ray (create_table_statement n query) before plan k h =
    implemented-visit_query ray (statement_opr logicalcreate n) query before plan
      (statement_rule ray).0 (statement_rule ray).1 k h
visit-implemented ray (create_function_statement n query) before plan k h =
    implemented-visit_query ray (statement_opr logicalcreatefunction n) query before plan
      (statement_rule ray).2 (statement_rule ray).3 k h
visit-implemented ray (explain_statement s) before plan k h =
    implemented-put_above ray explain_opr (visit s before) plan (statement_rule ray).4
      (λ p. visit-implemented ray s before p k) h
visit-implemented ray (insert_table_statement n) before plan k h =
    implemented-alone ray (statement_opr logicalinsert n) plan (statement_rule ray).5 h
visit-implemented ray (rename_table_statement n) before plan k h =
    implemented-alone ray (statement_opr logicalrename n) plan (statement_rule ray).6 h
visit-implemented ray (drop_object_statement n) before plan k h =
    implemented-alone ray (statement_opr logical_drop_object n) plan (statement_rule ray).7 h
visit-implemented ray (load_data_statement n) before plan k h =
    implemented-alone ray (statement_opr logicalloaddata n) plan (statement_rule ray).8 h
visit-implemented ray (show_statement n) before plan k h =
    implemented-alone ray (statement_opr logical_show n) plan (statement_rule ray).9 h
visit-implemented ray (create_index_statement n) before plan k h =
    implemented-alone ray (statement_opr logicalcreateindex n) plan (statement_rule ray).10 h
visit-implemented ray (delete_table_statement n) before plan k h =
    implemented-alone ray (statement_opr logicaldelete n) plan (statement_rule ray).11 h
visit-implemented ray (other_statement n) before plan k h = absurd (cc)
