-- ===== src/Executor.antt =====
-- executor/: the executors of a plan, as functions from the batches of their children to their own.
pub mod Batches
pub mod Limit
pub mod Sample
pub mod GroupBy
pub mod OrderBy
pub mod HashJoin
pub mod NestedLoopJoin
pub mod PlannedHashJoin
