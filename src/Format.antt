-- ===== src/Format.antt =====
-- fpp_analysis/src/semantics/format.rs: presentation formats and their parser.
pub mod Syntax
pub mod Parser
pub mod Printer
pub mod Print
pub mod Total
