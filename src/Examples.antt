-- ===== src/Examples.antt =====
-- Concrete inputs on which the theorems apply.
pub mod Conditions
pub mod Ranges
pub mod Readers
pub mod Pushdown
pub mod Rules
pub mod Memo
pub mod Plans
pub mod RewriteRules
pub mod Joins
pub mod Statements
pub mod FunctionCache
pub mod Evaluate
pub mod Executors
pub mod Binders
pub mod PlannedJoins
