-- ===== src/Socket.antt =====
-- tags/cbcbsim-1.0.2/src/Socket.cc, SocketManager.cc, ICP.cc, FlowControllerAIMD.cc, CBR.cc and
-- RTTstats.cc: the downloads of a node.
pub mod Rtt
pub mod Controller
pub mod Window
pub mod Pacing
pub mod Chunks
pub mod Choice
pub mod Manager
pub mod Flags
pub mod Progress
pub mod Receipt
pub mod Requests
pub mod Expiry
pub mod Start
pub mod Within
pub mod Completion
