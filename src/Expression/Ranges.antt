-- ===== src/Expression/Ranges.antt =====
-- expression/expression_utils.py: a predicate on one column as a list of ranges.
pub mod Union
pub mod Extract
pub mod Separated
pub mod Comparisons
pub mod Sound
pub mod Ordered
pub mod Total
