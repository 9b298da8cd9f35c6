-- ===== src/Optimizer/Tasks.antt =====
-- optimizer/optimizer_tasks.py, optimizer_task_stack.py and plan_generator.py.
pub mod Defs
pub mod Rewrites
pub mod Costing
pub mod PlanGenerator
pub mod Plans
pub mod KeepsTasks
pub mod KeepsPlanned
pub mod Run
pub mod Build
pub mod Livelock
