-- ===== src/Queue/Events.antt =====
-- nodes/queue_node.py: the life of a `QueueNode` as a list of events.
use tugas3_sinkronisasi_dist.Common.{ℕ, String, List, [], ◌∷◌}
use tugas3_sinkronisasi_dist.Queue.{
  QueueMessage, QueueNode, replicate_enqueue, enqueue, dequeue, ack, check_timeout,
}

pub data QueueEvent (P : Type 0) : Type 0 where
  enqueued : (now : ℕ) (msg_id : String) (payload : P) (partition_key : String) → QueueEvent P
  copied : (m : QueueMessage P) → QueueEvent P
  dequeued : (now : ℕ) → QueueEvent P
  acked : (msg_id : String) → QueueEvent P
  checked : (now : ℕ) (msg_id : String) → QueueEvent P

module _ {P : Type 0} (hash : String → ℕ) where
  unfoldable pub queue_step : QueueEvent P → QueueNode P → QueueNode P
  queue_step (enqueued now msg_id payload partition_key) n =
      (enqueue hash now msg_id payload partition_key n).0
  queue_step (copied m) n = replicate_enqueue m n
  queue_step (dequeued now) n = (dequeue now n).0
  queue_step (acked msg_id) n = (ack msg_id n).0
  queue_step (checked now msg_id) n = check_timeout now msg_id n

  unfoldable pub run_queue : List (QueueEvent P) → QueueNode P → QueueNode P
  run_queue [] n = n
  run_queue (e ∷ es) n = run_queue es (queue_step e n)
