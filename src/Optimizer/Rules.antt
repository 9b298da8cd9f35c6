-- ===== src/Optimizer/Rules.antt =====
-- optimizer/rules/: the kinds of rules and their manager.
pub mod RuleType
pub mod RuleTypeLaws
pub mod Manager
pub mod Patterns
