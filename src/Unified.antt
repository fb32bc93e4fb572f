-- ===== src/Unified.antt =====
-- main.py: `DistributedNode`, which has lock, queue and cache handlers of its own beside the classes of
-- the other files. Each child models one of its parts.
pub mod LockCommands
pub mod Waiters
pub mod Messages
pub mod Fifo
pub mod CacheLines
pub mod CacheReads
pub mod State
pub mod Rpc
pub mod Requests
pub mod Integration
pub mod Tests
