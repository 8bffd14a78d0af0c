-- ===== src/Examples.antt =====
-- The theorems at concrete inputs.
mod Types
mod Values
mod Formats
mod Topologies
mod Matchings
mod Lexing
mod Documents
mod Queries
