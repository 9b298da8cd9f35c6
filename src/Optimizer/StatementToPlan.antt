-- ===== src/Optimizer/StatementToPlan.antt =====
-- optimizer/statement_to_opr_converter.py: from a statement to a logical plan.
pub mod Defs
pub mod Independent
pub mod Conditions
pub mod Coverage
pub mod ImplementedQueries
pub mod Implemented
