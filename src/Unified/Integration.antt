-- ===== src/Unified/Integration.antt =====
-- main.py: how the parts of `DistributedNode` meet: which part a message changes, what an acquire answers,
-- what replicas hand out, and the regions that peers are given.
use tugas3_sinkronisasi_dist.Common.{
  ℕ, ◌+◌, String, true, false, Option, none, some, List, [], ◌∷◌, ◌++◌, or_else, string_eq, nat_eq,
  Dict, lookup, insert, lookup-insert, member, All, ◌≡◌, refl, sym, ◌∙◌, subst, arith, beq_refl,
  Option-cases, inl, inr,
}
use tugas3_sinkronisasi_dist.Audit.{Content}
use tugas3_sinkronisasi_dist.Failures.{record_heartbeat}
use tugas3_sinkronisasi_dist.Locks.{LockType, shared, exclusive, parse_lock_type}
use tugas3_sinkronisasi_dist.Messaging.{Peer}
use tugas3_sinkronisasi_dist.Queue.{
  or_id, pending, created, QueueMessage, parse_state, message_to_dict, message_from_dict,
}
use tugas3_sinkronisasi_dist.Queue.Ring.{HashRing, get_node}
use tugas3_sinkronisasi_dist.Replication.{handle_replicate}
use tugas3_sinkronisasi_dist.Routing.{RegionManager, get_region, register_node}
use tugas3_sinkronisasi_dist.Unified.LockCommands.{
  NodeLock, LockDict, take_lock, apply_command, lock_of,
}
use tugas3_sinkronisasi_dist.Unified.Messages.{
  NodeQueue, handed, node_enqueue, node_replicate, node_dequeue,
}
use tugas3_sinkronisasi_dist.Unified.Requests.{
  LockRequest, lock_status, client_of, acquire_command, finish_acquire,
}
use tugas3_sinkronisasi_dist.Unified.Rpc.{
  NodeBody, raft_body, cache_invalidate_body, cache_read_body, geo_replicate_body,
  queue_enqueue_body, heartbeat_body, other_body, NodeMessage, heard_from, dispatch_rpc, node_rpc,
}
use tugas3_sinkronisasi_dist.Unified.State.{DistributedNode, register_regions}
use tugas3_sinkronisasi_dist.Unified.Waiters.{command_lock, named_lock}

waits_for_holder :
    (client holder : String) (others : List String) (lt : LockType) (lock : NodeLock)
    → lock.lock_type ≡ some exclusive
    → lock.holders ≡ holder ∷ others
    → member client (holder ∷ others) ≡ false
    → member client (take_lock client lt lock).holders ≡ false
unfolding take_lock
waits_for_holder client holder others shared lock type holds apart =
    ground (arith, type, holds, apart)
waits_for_holder client holder others exclusive lock type holds apart =
    ground (arith, type, holds, apart)

module _ {V P : Type 0} where
  -- The parts of a node that a message may change.
  abbrev pub OthersKept : NodeBody V P → (n n' : DistributedNode V P) → Type 0
  OthersKept (raft_body body) n n' =
      (n'.cache ≡ n.cache) × (n'.replicator ≡ n.replicator) × (n'.queue ≡ n.queue)
  OthersKept (cache_invalidate_body key) n n' =
      (n'.raft ≡ n.raft) × (n'.replicator ≡ n.replicator) × (n'.queue ≡ n.queue)
  OthersKept (cache_read_body key) n n' =
      (n'.raft ≡ n.raft) × (n'.replicator ≡ n.replicator) × (n'.queue ≡ n.queue)
  OthersKept (geo_replicate_body entry) n n' =
      (n'.raft ≡ n.raft) × (n'.cache ≡ n.cache) × (n'.queue ≡ n.queue)
  OthersKept (queue_enqueue_body d) n n' =
      (n'.raft ≡ n.raft) × (n'.cache ≡ n.cache) × (n'.replicator ≡ n.replicator)
  OthersKept heartbeat_body n n' =
      (n'.raft ≡ n.raft)
      × (n'.cache ≡ n.cache)
      × (n'.replicator ≡ n.replicator)
      × (n'.queue ≡ n.queue)
  OthersKept other_body n n' =
      (n'.raft ≡ n.raft)
      × (n'.cache ≡ n.cache)
      × (n'.replicator ≡ n.replicator)
      × (n'.queue ≡ n.queue)

  body_rpc_lem :
      (now : ℕ) (m : NodeMessage V P) (body : NodeBody V P) (n : DistributedNode V P)
      → let n' = (dispatch_rpc now m body (heard_from now m.sender_id n)).0 in
        OthersKept body n n'
        × (n'.failure_detector ≡ record_heartbeat now m.sender_id n.failure_detector)
        × (n'.region_manager ≡ n.region_manager)
        × (n'.rbac ≡ n.rbac)
        × (n'.audit ≡ n.audit)
  unfolding dispatch_rpc
  body_rpc_lem now m (raft_body body) n = ((refl, refl, refl), refl, refl, refl, refl)
  body_rpc_lem now m (cache_invalidate_body key) n = ((refl, refl, refl), refl, refl, refl, refl)
  body_rpc_lem now m (cache_read_body key) n = ((refl, refl, refl), refl, refl, refl, refl)
  body_rpc_lem now m (queue_enqueue_body d) n = ((refl, refl, refl), refl, refl, refl, refl)
  body_rpc_lem now m heartbeat_body n = ((refl, refl, refl, refl), refl, refl, refl, refl)
  body_rpc_lem now m other_body n = ((refl, refl, refl, refl), refl, refl, refl, refl)
  body_rpc_lem now m (geo_replicate_body entry) n =
      elim (Option-cases (handle_replicate now entry n.replicator)) [
        | inl failed ↦ rw (failed, dispatch_rpc) ((refl, refl, refl), refl, refl, refl, refl)
        | inr ((r, (status, key)), done) ↦
            rw (done, dispatch_rpc) ((refl, refl, refl), refl, refl, refl, refl)
      ]

  -- Every message, also one whose handler fails, records a heartbeat of its sender. Beside that it changes
  -- at most the part that its type names: Raft, the cache, the replicator or the queue.
  pub node_rpc_lem :
      (now : ℕ) (m : NodeMessage V P) (n : DistributedNode V P)
      → let n' = (node_rpc now m n).0 in
        OthersKept m.body n n'
        × (n'.failure_detector ≡ record_heartbeat now m.sender_id n.failure_detector)
        × (n'.region_manager ≡ n.region_manager)
        × (n'.rbac ≡ n.rbac)
        × (n'.audit ≡ n.audit)
  unfolding node_rpc
  node_rpc_lem now m n = body_rpc_lem now m m.body n

  -- An acquire of an exclusive lock that another client holds is answered "acquired" once its command is
  -- committed, and the client does not hold the lock.
  pub acquired_without_lock :
      (digest : Content → String) (now : ℕ) (resource holder : String) (others : List String)
      (req : LockRequest) (locks : LockDict) (n : DistributedNode V P)
      → (lock_of resource locks).lock_type ≡ some exclusive
      → (lock_of resource locks).holders ≡ holder ∷ others
      → member (client_of req) (holder ∷ others) ≡ false
      → (member
            (client_of req)
            (lock_of resource (apply_command (acquire_command resource req) locks)).holders
          ≡ false)
        × ((finish_acquire digest now resource req true n).1 ≡ lock_status "acquired")
  unfolding finish_acquire
  acquired_without_lock digest now resource holder others req locks n type holds apart =
      let lock = lock_of resource locks in
      let c = acquire_command resource req in
      let taken = named_lock c locks in
      (
        elim (Option-cases (parse_lock_type (or_else req.lock_type "exclusive"))) [
          | inl odd ↦
              let stays : command_lock c lock ≡ lock = rw odd refl in
              subst (λ (l : NodeLock). member (client_of req) l.holders ≡ false)
                (sym (taken ∙ stays)) (rw holds apart)
          | inr (lt, known) ↦
              let took : command_lock c lock ≡ take_lock (client_of req) lt lock = rw known refl in
              subst (λ (l : NodeLock). member (client_of req) l.holders ≡ false)
                (sym (taken ∙ took))
                (waits_for_holder (client_of req) holder others lt lock type holds apart)
        ],
        refl,
      )

first_out :
    {P : Type 0} (later : ℕ) (m : QueueMessage P) (ring : HashRing)
    (messages : Dict String (QueueMessage P)) (total : ℕ) (ids : List String)
    → ids ≡ []
    → handed
        (node_dequeue later (record {
          hash_ring = ring;
          queue_messages = insert m.msg_id m messages;
          pending_queue = ids ++ m.msg_id ∷ [];
          enqueued_total = total;
        })).1
      ≡ m.msg_id ∷ []
unfolding node_dequeue
first_out later m ring messages total [] e =
    let found : lookup m.msg_id (insert m.msg_id m messages) ≡ some m =
      lookup-insert m.msg_id m.msg_id m messages ∙ (rw (beq_refl m.msg_id) refl) in
    rw (found, node_dequeue) refl
first_out later m ring messages total (id ∷ ids) e = absurd cc

-- A message that one node enqueues and another replicates is handed out by both, where neither has
-- another pending message.
pub replicas_both_deliver :
    {P : Type 0} (hash : String → ℕ) (now later : ℕ) (id : String) (payload : P) (key : String)
    (first second : NodeQueue P)
    → first.pending_queue ≡ []
    → second.pending_queue ≡ []
    → let (q, sent) = node_enqueue hash now id payload key first in
      (handed (node_dequeue later q).1 ≡ id ∷ [])
      × (handed (node_dequeue later (node_replicate later sent second)).1 ≡ id ∷ [])
unfolding node_enqueue node_replicate message_to_dict message_from_dict parse_state
replicas_both_deliver {P} hash now later id payload key first second e e' =
    let m : String → ℕ → Option String → QueueMessage P = λ key created_at assigned. record {
      msg_id = id;
      payload = payload;
      partition_key = key;
      state = pending;
      retries = 0;
      max_retries = 3;
      created_at = created_at;
      assigned_node = assigned;
      processing_started = none;
    } in
    let own = or_id key id in
    let node = get_node hash own first.hash_ring in
    (
      first_out later (m own now node) first.hash_ring first.queue_messages
          (first.enqueued_total + 1) first.pending_queue e,
      first_out later (m (or_id own id) (created later now) node) second.hash_ring
          second.queue_messages second.enqueued_total second.pending_queue e',
    )

-- Registering other nodes leaves a registered region as it is, if all have the same.
register_regions-keeps :
    (region name : String) (peers : List Peer) (g : RegionManager)
    → get_region name g ≡ some region
    → get_region name (register_regions region peers g) ≡ some region
unfolding register_regions register_node
register_regions-keeps region name [] g h = h
register_regions-keeps region name (p ∷ peers) g h =
    register_regions-keeps region name peers (register_node p.node_id p.host p.port region g)
      (ground (arith, h, lookup-insert p.node_id name region g.node_regions))

-- When it starts, a node takes every peer for one of its own region.
pub peers_get_own_region :
    (region : String) (peers : List Peer) (g : RegionManager)
    → All (λ p. get_region p.node_id (register_regions region peers g) ≡ some region) peers
unfolding register_regions register_node
peers_get_own_region region [] g = tt
peers_get_own_region region (p ∷ peers) g =
    let g' = register_node p.node_id p.host p.port region g in
    (
      register_regions-keeps region p.node_id peers g' (
          lookup-insert p.node_id p.node_id region g.node_regions ∙ (rw (beq_refl p.node_id) refl)),
      peers_get_own_region region peers g',
    )
