-- ===== src/Pit.antt =====
-- tags/cbcbsim-1.0.2/src/PITable.cc: the table of pending interests of a node.
pub mod Slots
pub mod Table
pub mod Invariant
pub mod Clean
pub mod Record
pub mod Out
pub mod Times
