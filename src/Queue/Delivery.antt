-- ===== src/Queue/Delivery.antt =====
-- nodes/queue_node.py: which messages `dequeue` hands out, and what becomes of those that are not
-- acknowledged in time.
use tugas3_sinkronisasi_dist.Common.{
  ℕ, ◌+◌, ◌≤◌, ◌<◌, ◌⊎◌, String, true, none, some, List, [], ◌∷◌, ◌++◌, if◌then◌else◌, string_eq,
  nat_eq, ◌==◌, lookup, lookup-insert, ◌≡◌, refl, arith, beq_refl,
}
use tugas3_sinkronisasi_dist.Queue.{
  pending, processing, completed, dead_letter, QueueMessage, QueueNode, delivered, dequeue, ack,
}

module _ {P : Type 0} where
  -- Under processing for longer than the timeout.
  abbrev pub IsOverdue : (now timeout : ℕ) → QueueMessage P → Type 0
  IsOverdue now timeout m =
      (m.state ≡ processing)
      × ((t : ℕ) × (m.processing_started ≡ some t) × (0 < t) × (timeout + t < now))

  -- `n'` has `m` under its id and in Redis, and every other message as `n` has it.
  pub record IsChanged (m : QueueMessage P) (n n' : QueueNode P) : Type 0 where
    pub messages :
        (j : String)
        → lookup j n'.messages ≡ (if m.msg_id == j then some m else lookup j n.messages)
    pub persisted : n'.persisted ≡ n.persisted ++ m ∷ []

  -- The retries of an overdue message are used up, and it is a dead letter, or it is pending again and
  -- queued last.
  abbrev pub IsTimedOut : (m : QueueMessage P) (n n' : QueueNode P) → Type 0
  IsTimedOut m n n' =
      ((m.max_retries ≤ m.retries + 1)
        × IsChanged (record m { retries = m.retries + 1; state = dead_letter }) n n'
        × (n'.pending_queue ≡ n.pending_queue))
      ⊎ ((m.retries + 1 < m.max_retries)
          × IsChanged
              (record m { retries = m.retries + 1; state = pending; processing_started = none }) n
              n'
          × (n'.pending_queue ≡ n.pending_queue ++ m.msg_id ∷ []))

  -- A message that is acknowledged while its id is first in the queue is handed out all the same, and
  -- is processing again.
  pub ack_does_not_dequeue :
      (now : ℕ) (id : String) (rest : List String) (m : QueueMessage P) (n : QueueNode P)
      → n.pending_queue ≡ id ∷ rest
      → lookup id n.messages ≡ some m
      → m.msg_id ≡ id
      → ((ack id n).1 ≡ true)
        × ((dequeue now (ack id n).0).1
            ≡ delivered (record m { state = processing; processing_started = some now }))
  unfolding ack dequeue
  ack_does_not_dequeue now id rest m n front there key = (
    rw (there, ack) refl,
    ground (
      arith,
      front,
      there,
      key,
      lookup-insert m.msg_id id (record m { state = completed }) n.messages,
      beq_refl id,
    ),
  )
