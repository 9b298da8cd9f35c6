-- ===== src/Optimizer.antt =====
-- optimizer/: from logical plans to physical ones.
pub mod OperatorType
pub mod Operators
pub mod Pushdown
pub mod Rules
pub mod Memo
pub mod RewriteRules
pub mod ImplementationRules
pub mod ExecutionCost
pub mod Tasks
pub mod StatementToPlan
