-- ===== src/Binder.antt =====
-- binder/: what a statement is bound to.
pub mod Context
