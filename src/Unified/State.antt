-- ===== src/Unified/State.antt =====
-- main.py: the state of `DistributedNode`, its start and its round of heartbeats. The tables of locks are
-- what the Raft log's applied entries make of an empty one, since `_apply_lock_command` is the callback
-- of the commits. Tasks, the HTTP server and the connection to Redis, which the node does not use, are
-- left out. Cached values have the type `V`, queued payloads `P`.
use tugas3_sinkronisasi_dist.Common.{ℕ, String, Bool, true, false, Option, List, [], ◌∷◌, map, Bool}
use tugas3_sinkronisasi_dist.Audit.{Content, AuditLogger, log, new_logger}
use tugas3_sinkronisasi_dist.Config.{NodeConfig}
use tugas3_sinkronisasi_dist.Failures.{FailureDetector, new_detector, register_peer}
use tugas3_sinkronisasi_dist.Locks.{Command}
use tugas3_sinkronisasi_dist.Messaging.{Peer}
use tugas3_sinkronisasi_dist.Node.{heartbeat_round}
use tugas3_sinkronisasi_dist.Queue.Ring.{HashRing, new_ring, add_node}
use tugas3_sinkronisasi_dist.Raft
use tugas3_sinkronisasi_dist.Raft.{Raft, LogEntry, init}
use tugas3_sinkronisasi_dist.Rbac.{Stdlib, RbacManager}
use tugas3_sinkronisasi_dist.Rbac
use tugas3_sinkronisasi_dist.Replication.{Replicator, new_replicator}
use tugas3_sinkronisasi_dist.Routing.{RegionManager, LatencyRouter, register_node}
use tugas3_sinkronisasi_dist.Routing
use tugas3_sinkronisasi_dist.Unified.LockCommands.{LockDict, apply_commands}
use tugas3_sinkronisasi_dist.Unified.Messages.{NodeQueue}
use tugas3_sinkronisasi_dist.Unified.CacheLines.{NodeCache, new_node_cache}

pub record DistributedNode (V P : Type 0) : Type 0 where
  pub config : NodeConfig
  pub peers : List Peer
  pub failure_detector : FailureDetector
  pub raft : Raft Command
  pub region_manager : RegionManager
  pub replicator : Replicator (Option V)
  pub rbac : RbacManager
  pub audit : AuditLogger
  pub queue : NodeQueue P
  pub cache : NodeCache V
  pub running : Bool

abbrev pub raft_peer : Peer → Raft.Peer
raft_peer p = record { node_id = p.node_id; host = p.host; port = p.port }

-- `self.locks`: `on_commit(self._apply_lock_command)` is the one callback.
abbrev pub locks_of : Raft Command → LockDict
locks_of r = apply_commands (map (λ e. e.command) r.applied) []

-- Every peer is registered with the region of this node.
unfoldable pub register_regions : (region : String) → List Peer → RegionManager → RegionManager
register_regions region [] g = g
register_regions region (peer ∷ peers) g =
    register_regions region peers (register_node peer.node_id peer.host peer.port region g)

-- `hash_ring.add_node` for every peer
unfoldable pub add_peers : (point : String → ℕ → ℕ) → List Peer → HashRing → HashRing
add_peers point [] r = r
add_peers point (peer ∷ peers) r = add_peers point peers (add_node point peer.node_id r)

-- `failure_detector.register_peer` for every peer
unfoldable pub watch_peers : (now : ℕ) → List Peer → FailureDetector → FailureDetector
watch_peers now [] f = f
watch_peers now (peer ∷ peers) f = watch_peers now peers (register_peer now peer.node_id f)

module _ {V P : Type 0} where
  -- `__init__`, where `peers` is what `config.get_peer_nodes()` returns and `replicas` the default of
  -- the hash ring
  unfoldable pub new_distributed :
      (lib : Stdlib) (now replicas : ℕ) (config : NodeConfig) (peers : List Peer)
      → DistributedNode V P
  new_distributed lib now replicas config peers = record {
    config = config;
    peers = peers;
    failure_detector = new_detector 3 10;
    raft = init config.node_id (map raft_peer peers) now;
    region_manager = Routing.new_manager config.node_id config.node_region;
    replicator = new_replicator config.node_id;
    rbac = Rbac.new_manager lib config.secret_key;
    audit = new_logger config.node_id;
    queue = record {
      hash_ring = new_ring replicas;
      queue_messages = [];
      pending_queue = [];
      enqueued_total = 0;
    };
    cache = new_node_cache config.cache_max_size;
    running = false;
  }

  -- `audit.log` with this node's clock
  abbrev pub record_audit :
      (digest : Content → String) (now : ℕ) (user action resource result : String)
      → DistributedNode V P
      → DistributedNode V P
  record_audit digest now user action resource result n = record n {
    audit = log digest now user action resource result n.audit;
  }

  unfoldable pub start_node :
      (digest : Content → String) (point : String → ℕ → ℕ) (now : ℕ)
      → DistributedNode V P
      → DistributedNode V P
  start_node digest point now n =
      let ring = add_node point n.config.node_id (add_peers point n.peers n.queue.hash_ring) in
      record_audit digest now "system" "node_start" n.config.node_id "success" (record n {
        failure_detector = watch_peers now n.peers n.failure_detector;
        region_manager = register_regions n.config.node_region n.peers n.region_manager;
        queue = record n.queue { hash_ring = ring };
        running = true;
      })

  unfoldable pub stop_node :
      (digest : Content → String) (now : ℕ) → DistributedNode V P → DistributedNode V P
  stop_node digest now n =
      record_audit digest now "system" "node_stop" n.config.node_id "success"
        (record n { running = false })

  -- One round of `_heartbeat_loop`, with the peers that answered.
  unfoldable pub node_heartbeats :
      (answered : Peer → Bool) (now : Peer → ℕ) → DistributedNode V P → DistributedNode V P
  node_heartbeats answered now n = record n {
    failure_detector = heartbeat_round answered now n.peers n.failure_detector;
  }
