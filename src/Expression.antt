-- ===== src/Expression.antt =====
-- expression/: the expression trees of the query processor.
pub mod Types
pub mod Holds
pub mod Conjunction
pub mod Columns
pub mod Values
pub mod Ranges
pub mod Traversal
pub mod Equality
pub mod FunctionCache
pub mod Evaluate
