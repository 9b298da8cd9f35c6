-- ===== src/Parser.antt =====
-- parser/: the statements that the parser hands on.
pub mod Statements
