-- ===== src/Unified/Rpc.antt =====
-- main.py: `_handle_rpc` of `DistributedNode`. The data of a message is a value of its type, with `none`
-- where a key that is read with `d[...]` is missing or is of another type.
use tugas3_sinkronisasi_dist.Common.{ℕ, String, Option, none, some, is_some, if◌then◌else◌}
use tugas3_sinkronisasi_dist.Failures.{record_heartbeat}
use tugas3_sinkronisasi_dist.Locks.{Command}
use tugas3_sinkronisasi_dist.Queue.{MessageData, message_from_dict}
use tugas3_sinkronisasi_dist.Raft
use tugas3_sinkronisasi_dist.Raft.Handlers
use tugas3_sinkronisasi_dist.Replication.{EntryData, handle_replicate}
use tugas3_sinkronisasi_dist.Unified.CacheLines.{NodeReply, node_invalidate, node_read}
use tugas3_sinkronisasi_dist.Unified.Messages.{node_replicate}
use tugas3_sinkronisasi_dist.Unified.State.{DistributedNode}

-- The four Raft types, then the others that have a branch of their own. A queue message whose state is
-- unknown is one that `message_from_dict` rejects.
pub data NodeBody (V P : Type 0) : Type 0 where
  raft_body : Raft.Body Command → NodeBody V P
  cache_invalidate_body cache_read_body : (key : String) → NodeBody V P
  geo_replicate_body : EntryData (Option V) → NodeBody V P
  queue_enqueue_body : MessageData P → NodeBody V P
  heartbeat_body other_body : NodeBody V P

pub record NodeMessage (V P : Type 0) : Type 0 where
  pub body : NodeBody V P
  pub sender_id : String
  pub term : ℕ

pub data RpcReply (V : Type 0) : Type 0 where
  raft_reply : Raft.Reply → RpcReply V
  cache_invalidated queue_replicated heartbeat_alive rpc_ok : RpcReply V
  cache_reply : NodeReply V → RpcReply V
  geo_reply : (status key : String) → RpcReply V
  rpc_failed : RpcReply V

module _ {V P : Type 0} where
  abbrev pub heard_from : (now : ℕ) (sender_id : String) → DistributedNode V P → DistributedNode V P
  heard_from now sender_id n = record n {
    failure_detector = record_heartbeat now sender_id n.failure_detector;
  }

  -- The branches, after the heartbeat of the sender has been recorded.
  unfoldable pub dispatch_rpc :
      (now : ℕ) (m : NodeMessage V P)
      → NodeBody V P
      → DistributedNode V P
      → DistributedNode V P × RpcReply V
  dispatch_rpc now m (raft_body body) n =
      let (raft', reply) =
        Handlers.handle_message now (record { body = body; sender_id = m.sender_id; term = m.term })
          n.raft in
      (record n { raft = raft' }, raft_reply reply)
  dispatch_rpc now m (cache_invalidate_body key) n =
      (record n { cache = node_invalidate key n.cache }, cache_invalidated)
  dispatch_rpc now m (cache_read_body key) n =
      let (cache', reply) = node_read now key n.cache in
      (record n { cache = cache' }, cache_reply reply)
  dispatch_rpc now m (geo_replicate_body entry) n = elim (handle_replicate now entry n.replicator) [
    | none ↦ (n, rpc_failed)
    | some (r, (status, key)) ↦ (record n { replicator = r }, geo_reply status key)
  ]
  dispatch_rpc now m (queue_enqueue_body d) n = (
    record n { queue = node_replicate now d n.queue },
    (if is_some (message_from_dict now d) then queue_replicated else rpc_failed),
  )
  dispatch_rpc now m heartbeat_body n = (n, heartbeat_alive)
  dispatch_rpc now m other_body n = (n, rpc_ok)

  unfoldable pub node_rpc :
      (now : ℕ) → NodeMessage V P → DistributedNode V P → DistributedNode V P × RpcReply V
  node_rpc now m n = dispatch_rpc now m m.body (heard_from now m.sender_id n)
