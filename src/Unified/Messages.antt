-- ===== src/Unified/Messages.antt =====
-- main.py: the queue of `DistributedNode`, which hands out each id of `pending_queue` once and has no
-- timeouts. Ids and times are arguments; the random partition key of an enqueue without one is part of
-- the request.
use tugas3_sinkronisasi_dist.Common.{
  ℕ, ◌+◌, ◌-◌, String, none, some, List, [], ◌∷◌, ◌++◌, take, string_eq, if◌then◌else◌, ◌==◌,
  nat_eq, Dict, lookup, insert, length,
}
use tugas3_sinkronisasi_dist.Messaging.{Peer}
use tugas3_sinkronisasi_dist.Queue.{
  or_id, pending, processing, completed, QueueMessage, MessageData, message_to_dict,
  message_from_dict,
}
use tugas3_sinkronisasi_dist.Queue.Ring.{HashRing, get_node}

pub record NodeQueue (P : Type 0) : Type 0 where
  pub hash_ring : HashRing
  pub queue_messages : Dict String (QueueMessage P)
  pub pending_queue : List String
  pub enqueued_total : ℕ

-- 204 and 200 of a dequeue, 404 and 200 of an acknowledgement
pub data QueueReply (P : Type 0) : Type 0 where
  nothing_there : QueueReply P
  handed_out : QueueMessage P → QueueReply P
  not_found acknowledged : QueueReply P

-- `peers[:replication_factor - 1]`, where -1 leaves out the last one
unfoldable pub first_peers : (replication_factor : ℕ) → List Peer → List Peer
first_peers replication_factor peers =
    if replication_factor == 0
    then take (length peers - 1) peers
    else take (replication_factor - 1) peers

module _ {P : Type 0} where
  -- `queue_messages[id] = msg` and `pending_queue.append(id)`
  abbrev pub put_message : QueueMessage P → NodeQueue P → NodeQueue P
  put_message m q = record q {
    queue_messages = insert m.msg_id m q.queue_messages;
    pending_queue = q.pending_queue ++ m.msg_id ∷ [];
  }

  -- `_handle_queue_enqueue`: the queue after it, and what is sent to the first peers.
  unfoldable pub node_enqueue :
      (hash : String → ℕ) (now : ℕ) (msg_id : String) (payload : P) (partition_key : String)
      → NodeQueue P
      → NodeQueue P × MessageData P
  node_enqueue hash now msg_id payload partition_key q =
      let key = or_id partition_key msg_id in
      let m : QueueMessage P = record {
        msg_id = msg_id;
        payload = payload;
        partition_key = key;
        state = pending;
        retries = 0;
        max_retries = 3;
        created_at = now;
        assigned_node = get_node hash key q.hash_ring;
        processing_started = none;
      } in
      let q' = put_message m q in
      (record q' { enqueued_total = q.enqueued_total + 1 }, message_to_dict m)

  -- QUEUE_ENQUEUE in `_handle_rpc`: the message is queued whatever its state is. An unknown state
  -- raises, and changes nothing.
  unfoldable pub node_replicate : (now : ℕ) → MessageData P → NodeQueue P → NodeQueue P
  node_replicate now d q = elim (message_from_dict now d) [ none ↦ q | some m ↦ put_message m q ]

  -- `_handle_queue_dequeue`. A message is an object in `queue_messages`: it is changed there.
  unfoldable pub node_dequeue : (now : ℕ) → NodeQueue P → NodeQueue P × QueueReply P
  node_dequeue now q = elim q.pending_queue [
    | [] ↦ (q, nothing_there)
    | mid ∷ rest ↦
        let q' = record q { pending_queue = rest } in
        elim (lookup mid q.queue_messages) [
          | none ↦ (q', nothing_there)
          | some m ↦
              let m' = record m { state = processing; processing_started = some now } in
              (record q' { queue_messages = insert mid m' q.queue_messages }, handed_out m')
        ]
  ]

  -- `_handle_queue_ack`
  unfoldable pub node_ack : (msg_id : String) → NodeQueue P → NodeQueue P × QueueReply P
  node_ack msg_id q = elim (lookup msg_id q.queue_messages) [
    | none ↦ (q, not_found)
    | some m ↦ (
      record q { queue_messages = insert msg_id (record m { state = completed }) q.queue_messages },
      acknowledged,
    )
  ]

-- What a node's queue is asked to do.
pub data QueueRequest (P : Type 0) : Type 0 where
  enqueue_request :
      (now : ℕ) (msg_id : String) (payload : P) (partition_key : String) → QueueRequest P
  replicate_request : (now : ℕ) → MessageData P → QueueRequest P
  dequeue_request : (now : ℕ) → QueueRequest P
  ack_request : (msg_id : String) → QueueRequest P

abbrev pub handed : {P : Type 0} → QueueReply P → List String
handed nothing_there = []
handed (handed_out m) = m.msg_id ∷ []
handed not_found = []
handed acknowledged = []

module _ {P : Type 0} (hash : String → ℕ) where
  unfoldable pub queue_request : QueueRequest P → NodeQueue P → NodeQueue P
  queue_request (enqueue_request now msg_id payload partition_key) q =
      (node_enqueue hash now msg_id payload partition_key q).0
  queue_request (replicate_request now d) q = node_replicate now d q
  queue_request (dequeue_request now) q = (node_dequeue now q).0
  queue_request (ack_request msg_id) q = (node_ack msg_id q).0

  unfoldable pub queue_requests : List (QueueRequest P) → NodeQueue P → NodeQueue P
  queue_requests [] q = q
  queue_requests (r ∷ rs) q = queue_requests rs (queue_request r q)

  -- The ids of what the requests hand out, in order.
  unfoldable pub delivered : List (QueueRequest P) → NodeQueue P → List String
  delivered [] q = []
  delivered (dequeue_request now ∷ rs) q =
      handed (node_dequeue now q).1 ++ delivered rs (node_dequeue now q).0
  delivered (r ∷ rs) q = delivered rs (queue_request r q)
