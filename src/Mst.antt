-- ===== src/Mst.antt =====
-- tags/cbcbsim-1.0.2/src/MSTBroadcastLayer.cc: broadcast trees on a minimum spanning tree.
pub mod Layer
pub mod Spanning
pub mod Paths
pub mod Hops
