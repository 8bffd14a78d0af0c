-- ===== src/Values.antt =====
-- The values of FPP.
pub mod Integers
pub mod Operands
pub mod Arithmetic
pub mod Defaults
pub mod Conversion
