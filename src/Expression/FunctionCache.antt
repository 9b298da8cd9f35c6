-- ===== src/Expression/FunctionCache.antt =====
-- expression/function_expression.py: the evaluation of a function with a cache.
pub mod Defs
pub mod Agreement
pub mod Misses
