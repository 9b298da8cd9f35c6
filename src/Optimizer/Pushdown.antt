-- ===== src/Optimizer/Pushdown.antt =====
-- optimizer/optimizer_utils.py: which conjuncts of a predicate can be evaluated early, and which
-- columns a join can hash on.
pub mod Defs
pub mod Meaning
pub mod JoinKeys
