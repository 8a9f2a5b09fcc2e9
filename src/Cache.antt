-- ===== src/Cache.antt =====
-- tags/cbcbsim-1.0.2/src/CacheLRU.cc and CacheRND.cc: the caches of a node.
pub mod Nodes
pub mod Bitmap
pub mod Store
pub mod Invariant
pub mod Added
pub mod Recency
pub mod Discard
pub mod Insert
pub mod Search
pub mod AddLru
pub mod AddRnd
pub mod Again
pub mod Lru
pub mod Rnd
