-- ===== src/Routing.antt =====
-- tags/cbcbsim-1.0.2/src/CBCBNode.cc: the predicates of the nodes, and the packets that spread them.
pub mod Table
pub mod Protocol
pub mod Covers
