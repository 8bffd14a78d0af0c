-- ===== src/Types.antt =====
-- fpp_analysis/src/semantics/types.rs: FPP types, conversion, common types and serialized sizes.
pub mod Structure
pub mod Measure
pub mod WellFormed
pub mod Convert
pub mod Members
pub mod Common
pub mod Size
