-- ===== src/Query/Panics.antt =====
-- fpp_query/src/query/eval.rs: the evaluation of a query never indexes its arguments out of range.
pub mod Relations
pub mod Calls
pub mod Queries
