-- ===== src/Expression/Conjunction.antt =====
-- expression/expression_utils.py: conjunctions as trees and as lists.
pub mod Defs
pub mod Meaning
pub mod RoundTrip
