-- ===== src/Optimizer/RewriteRules.antt =====
-- optimizer/rules/rules.py: the rules that move conditions and joins.
pub mod Shared
pub mod EmbedFilterIntoGet
pub mod PushDownFilterThroughJoin
pub mod PushDownFilterThroughApplyAndMerge
pub mod XformLateralJoinToLinearFlow
pub mod LogicalInnerJoinCommutativity
pub mod ReorderPredicates
pub mod LogicalJoinToPhysicalHashJoin
pub mod LogicalJoinToPhysicalNestedLoopJoin
