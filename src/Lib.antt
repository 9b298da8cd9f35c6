-- ===== src/Lib.antt =====
-- A verification library for EvaDB: its expressions, its query optimizer, and the reading and the
-- execution of plans.
--
-- The parts of the program, and how they interact
--
-- A query's conditions are trees of expressions (evadb/expression). The binder (evadb/binder)
-- looks up the columns of a statement under the aliases of its tables. A statement becomes a tree
-- of logical operators (evadb/optimizer/statement_to_opr_converter.py). The optimizer takes
-- conditions apart into conjuncts (expression_utils.py), and its utilities
-- (evadb/optimizer/optimizer_utils.py) decide by their columns which conjuncts are pushed below a
-- join, and which are the keys of a hash join. The plan generator
-- (evadb/optimizer/plan_generator.py) puts the logical operators into a memo of groups (memo.py,
-- group.py, group_expression.py, optimizer_context.py), and runs tasks from a stack
-- (optimizer_tasks.py): two stages rewrite the memo by rules, where a binder (binder.py) finds the
-- matches of a rule's pattern; the last stage adds physical plans, costs them, and keeps the
-- cheapest of each group as its winner. The physical plan is then built from the winners. The
-- rules are kept in lists by stage (rules/rules_manager.py, rules/rules_base.py). Executors
-- (evadb/executor) run the plan on batches of rows; readers (evadb/readers) use the ranges of a
-- predicate on one column; expressions are evaluated on batches, with caches for their functions.
--
-- Which file models which part (a source file without a folder stands in evadb/expression/ for the
-- modules under Expression, and in evadb/optimizer/ for those under Optimizer)
--
--   Prelude                  shared names, signed integers, results with Python's exceptions, texts
--   Expression/Types         abstract_expression.py and the expression classes
--   Expression/Holds, Values a reference for the truth and the value of a condition on one row
--   Expression/Conjunction   expression_utils.py: to_conjunction_list and
--                            conjunction_list_to_expression_tree
--   Expression/Columns       expression_utils.py: get_columns_in_predicate, contains_single_column,
--                            is_simple_predicate
--   Expression/Ranges        expression_utils.py: extract_range_list_from_comparison_expr and
--                            extract_range_list_from_predicate, with their local functions
--   Expression/Equality      the __eq__ methods of the expression classes
--   Expression/Traversal     abstract_expression.py: bfs, dfs and find_all
--   Expression/Evaluate      logical_expression.py: evaluate, with the masks of
--                            evadb/models/storage/batch.py
--   Expression/FunctionCache function_expression.py: _apply_function_expression
--   Binder/Context           evadb/binder/statement_binder_context.py
--   Parser/Statements        evadb/parser: the statements and the references to tables
--   Optimizer/OperatorType   operators.py: the enumeration; Optimizer/Operators: the operators,
--                            plan_nodes/, and the types of their fields
--   Optimizer/StatementToPlan statement_to_opr_converter.py
--   Optimizer/Pushdown       optimizer_utils.py: extract_pushdown_predicate,
--                            extract_pushdown_predicate_for_alias, extract_equi_join_keys
--   Optimizer/Rules          rules_base.py (RuleType), rules_manager.py (Manager), and the patterns
--                            of the rules of rules/rules.py (Patterns)
--   Optimizer/Memo           memo.py, group.py and group_expression.py (Defs),
--                            optimizer_context.py (Context), binder.py and pattern.py (Binder)
--   Optimizer/Tasks          optimizer_tasks.py (Defs, Rewrites, Costing) and plan_generator.py
--                            (PlanGenerator)
--   Optimizer/RewriteRules   rules/rules.py: a file for each rule that moves conditions or joins
--   Optimizer/ImplementationRules  rules/rules.py: the rules that turn an operator into its plan
--   Optimizer/ExecutionCost  optimizer_utils.py: get_expression_execution_cost; cost_model.py
--   Executor                 evadb/executor: limit, sample, group by, order by, predicate, union, the
--                            nested loop join, and the hash join with its build side; plan_executor.py
--                            for the plan of a hash join (PlannedHashJoin)
--   Readers/DecordReader     evadb/readers/decord_reader.py: the frames that are read
--   Examples                 concrete inputs
--
-- How state and operations correspond to the code
--
-- Group expressions are objects that the memo, the groups and the tasks share. The memo keeps them in
-- a list, and a reference is a position in it, so that a change shows through every reference. Groups
-- are numbered from 0 and never taken out, so that the dictionary of groups is a list. Python's hash
-- of an operator with the groups of its children is a parameter, as are the cost model and the rules:
-- to the tasks a rule is its type, its pattern, and the functions `check` and `apply`. An exception
-- ends an operation with `err`; where the code's input leaves what is modelled, the model ends with
-- `unsupported`. A set of texts is a list without repetition. Costs are natural numbers. The constants
-- of ranges are integers, as the comments of the code have it.
-- The context of the binder is a record with its two dictionaries, whose keys stand in the order in
-- which they came in; what the catalog and the data sources answer are parameters.
-- The converter's field _plan is a state that each visit is given and gives back. A cache is a state
-- with a look-up and a write, and the object of a user's function has a state that a call may change. A
-- batch is the list of its rows, and a column of Booleans has the
-- labels of its index beside them. An executor is a function from the batches of its children to its
-- own batches, so that batches that were yielded before an exception are not in its result; the field
-- batch_sizes of the order-by executor is an argument and a part of the result. The sorting of rows,
-- the join on an index, and what decord says of a video are parameters.
--
-- Fuel
--
-- The task stack of a stage need not run empty: rules may undo each other, and a group may get no
-- plan. `execute_task_stack` is on fuel, and `none` says that the fuel ran out. The build of the plan
-- is on fuel too; every fuel from some number on is enough for it wherever the stages have ended with
-- a winner for the root group.
-- The search through an expression is on fuel, one step for each node, which is enough. The loops of
-- the reader have a round for each number of the range or each key frame, and the loop of the
-- group-by executor one for each row, which is enough where a segment has a row.
--
-- What is not modelled
--
-- The rules for samples, for the caches of functions, for the extraction of objects and for vector
-- indexes; the walk of the binder through a statement; the grammar; the other executors; the catalog,
-- the storage engines and the other readers, which are calls of databases and files; the functions,
-- which wrap libraries of machine learning; the server and the interfaces. The evaluation of
-- comparisons, arithmetic and aggregations is a parameter.
-- The time limit of `build`, and the children that the optimizer's operators hold beside the memo's
-- groups, are left out. Logging, the statistics of functions and the environment that Ray gives to its
-- processes are left out. The ranges that a predicate gives for constants other than integers (pairs of
-- texts, of floats or of truth values) have no place in the type of ranges: there the model stops.
mod Prelude
pub mod Expression
pub mod Parser
pub mod Optimizer
pub mod Readers
pub mod Executor
pub mod Binder
pub mod Examples
