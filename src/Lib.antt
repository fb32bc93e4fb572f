-- ===== src/Lib.antt =====
-- A distributed synchronisation node: a lock manager replicated by Raft, a message queue, a cache with
-- MESI states, geo replication with latency routing, a failure detector, access control, an audit log,
-- and the unified node that puts them together (Python, package src/).
--
-- Each module models one file and names its functions as the source does:
--   Common            shared notation: Boolean tests, equality as an interface, lists, dictionaries in
--                     insertion order, sets, sorting, texts with Python's methods, hexadecimal texts, integers
--   Raft              src/consensus/raft.py. `Raft` is the state of RaftConsensus; Raft.Handlers has its
--                     methods, Raft.Events its lives as lists of events; the other children hold proofs
--   Locks             src/nodes/lock_manager.py. `LockTable` is the state of LockManagerNode; the wait-for
--                     graph and its search are in Locks.Deadlocks, runs in Locks.Events, the
--                     handlers of requests, with the node's Raft, in Locks.Requests
--   Cache             src/nodes/cache_node.py. Cache.Lines has LruCache, `CacheNode` is the node's
--                     state with its handlers, Cache.Network the messages of several nodes
--   Replication       src/geo/replicator.py. Replication.Clocks has VectorClock, `Replicator` is the state
--   Queue             src/nodes/queue_node.py. `QueueNode` is the state, Queue.Ring has ConsistentHashRing,
--                     Queue.Recovery the start with what Redis kept
--   Routing           src/geo/region_manager.py and src/geo/latency_router.py
--   Failures          src/communication/failure_detector.py
--   Audit             src/security/audit_logger.py
--   Rbac              src/security/rbac.py. `RbacManager` is the state, `middleware` the middleware
--   Messaging         src/communication/message_passing.py. `Message`, and `send` with its retries
--   Config            src/utils/config.py
--   Metrics           src/utils/metrics.py. `Metrics` is MetricsCollector
--   Node              src/nodes/base_node.py. `BaseNode` on Failures, Messaging and Metrics
--   Unified           src/main.py. Unified.State has DistributedNode, whose parts are the states of the
--                     modules above and its own lock table (Unified.LockCommands), queue
--                     (Unified.Messages) and cache (Unified.CacheLines); Unified.Rpc and
--                     Unified.Requests have its handlers
--
-- How the parts meet: a lock command is proposed to Raft, which gives the committed entries in log order
-- to the lock manager's `_apply_lock_command`. Raft.Safety says which entries those are. Leases end on
-- each replica by its own clock. A node's RPC handler records a heartbeat of the sender and gives the
-- message to the part that its type names (Node, Unified.Rpc); heartbeats and the failure detector's
-- rounds meet in Node.Heartbeats. A request passes the RBAC middleware before a handler of
-- Unified.Requests runs.
--
-- State is passed explicitly. Code between two awaits that can suspend runs alone, so a method that
-- waits is split there: `_start_election` into begin_election and finish_election, `propose` into propose
-- and propose_timeout, a broadcast into the messages it sends and the replies that come. Interleavings
-- are lists of events, in any order. The clock is an argument, in whole units of time. Exceptions that the
-- source catches and logs leave the state as the model says at each place.
--
-- What the program gets from elsewhere is a parameter or an outbox: the md5 hash of the ring (`hash` and
-- `point` in Queue.Ring), sha256 of the audit log (`digest` in Audit), Redis (`persisted` in Queue,
-- `Stored` in Queue.Recovery), the log file (`lines` in Audit), sha256, HMAC, UTF-8 and JSON of the
-- tokens (`Stdlib` in Rbac; `IsReadBack` says what the theorems rely on), the network's answers to the
-- attempts of a send (`outcome` in Messaging), the callbacks of the failure detector (`notified` in
-- Failures). The cache's broadcasts are single messages in Cache.Network, of which any may be lost.
-- Latencies are whole milliseconds and averages exact fractions, where the source rounds floating-point
-- numbers.
--
-- Fuel: _apply_committed's loop runs commit_index - last_applied rounds, which Raft.Apply shows to be
-- enough. The recursion of detect_cycles has one unit for each client of the graph and one more; that
-- what it reports are cycles holds whatever the fuel.
--
-- Not modelled: sleeping and task scheduling, sockets and HTTP encoding, logging, TLS certificates (calls
-- of libraries), and what PROJECT.json lists as such. The lock manager, the queue and the cache keep
-- only those metrics that their states count, without labels.
pub mod Common
pub mod Raft
pub mod Locks
pub mod Cache
pub mod Replication
pub mod Queue
pub mod Failures
pub mod Audit
pub mod Config
pub mod Messaging
pub mod Metrics
pub mod Node
pub mod Rbac
pub mod Routing
pub mod Unified
