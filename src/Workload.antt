-- ===== src/Workload.antt =====
-- tags/cbnsim-1.1.3/WorkloadParser.cc: the parser of workload files.
pub mod Lexer
pub mod Classes
pub mod Stream
pub mod Words
pub mod Comments
pub mod Events
pub mod Progress
pub mod Ending
