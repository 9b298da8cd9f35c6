-- ===== src/Optimizer/Memo.antt =====
-- optimizer/memo.py, group.py and group_expression.py, with optimizer_context.py and binder.py.
pub mod Defs
pub mod Context
pub mod Binder
pub mod Dictionary
pub mod Laws
pub mod Keeps
pub mod KeepsContext
