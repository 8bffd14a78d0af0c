-- ===== src/Query.antt =====
-- fpp_query: the query language.
pub mod Glob
pub mod Ast
pub mod Values
pub mod Eval
pub mod Expr
pub mod Needs
pub mod Panics
pub mod Stems
