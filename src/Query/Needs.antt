-- ===== src/Query/Needs.antt =====
-- fpp_query/src/query/ast.rs: what `Needs` promises to the evaluation of eval.rs.
pub mod Kinds
pub mod Agree
pub mod Union
