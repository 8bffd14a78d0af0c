-- ===== src/Topology.antt =====
-- The numbering of the ports of a topology's connections.
pub mod PortNumbers
pub mod Matching
