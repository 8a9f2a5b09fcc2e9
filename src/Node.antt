-- ===== src/Node.antt =====
-- tags/cbcbsim-1.0.2/src/CBCBNode.cc, CCNxNode.cc and LoadBalancing.cc: a node that forwards
-- interests and data over its cache, its table of pending interests and its downloads.
pub mod Balance
pub mod State
pub mod Forward
pub mod Answer
pub mod Download
pub mod Arrival
pub mod Transit
pub mod Ports
pub mod Managed
pub mod Reception
