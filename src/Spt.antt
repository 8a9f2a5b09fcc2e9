-- ===== src/Spt.antt =====
-- tags/cbcbsim-1.0.2/src/SPTsBroadcastLayer.cc: broadcast trees of shortest paths.
pub mod Heap
pub mod Order
pub mod Sink
pub mod Queue
pub mod Table
pub mod Dijkstra
pub mod Relaxed
pub mod Shortest
pub mod Graph
pub mod Entered
pub mod Single
pub mod Layer
pub mod Alternative
pub mod Numbering
pub mod Disjoint
pub mod Loop
pub mod Rows
pub mod Links
pub mod Parents
pub mod Pairs
pub mod Trees
