-- ===== src/Expression/Evaluate.antt =====
-- expression/logical_expression.py and models/storage/batch.py: conditions on a batch.
pub mod Defs
pub mod Masks
pub mod Pointwise
