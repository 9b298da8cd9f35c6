-- ===== src/Binder/Context.antt =====
-- binder/statement_binder_context.py: the context of a statement, and how it resolves columns.
pub mod Defs
pub mod Resolves
pub mod Dictionaries
pub mod Lookups
pub mod Aliases
pub mod Derived
pub mod Qualified
pub mod Star
