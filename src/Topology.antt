-- ===== src/Topology.antt =====
-- internal/topology: the corner table of a triangle mesh.
pub mod CornerTable
