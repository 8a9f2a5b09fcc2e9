-- ===== src/Queue.antt =====
-- tags/cbcbsim-1.0.2/src/OutputQueue.cc and include/cbcbsim/OutputQueue.h: the output queues.
pub mod Fifo
pub mod Link
pub mod VirtualQueue
pub mod Flow
pub mod FairQueue
pub mod Turns
pub mod Departure
