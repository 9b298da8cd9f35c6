-- ===== src/Optimizer/ImplementationRules.antt =====
-- optimizer/rules/rules.py: the rules that turn an operator into a plan node.
pub mod Defs
pub mod Apply
pub mod Alone
pub mod Conditions
