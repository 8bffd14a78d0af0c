-- ===== src/Semantics.antt =====
-- The data of the semantic analysis: types and values.
pub mod Data
