-- ===== src/Unified/Fifo.antt =====
-- main.py: what the node's queue hands out is what was put in, in order and once.
use tugas3_sinkronisasi_dist.Common.{
  ℕ, String, true, none, some, List, [], ◌∷◌, ◌++◌, ◌==◌, string_eq, Dict, lookup, insert,
  lookup-insert, is_some, All, All-append, append_assoc, append-nil, ◌≡◌, refl, sym, ap, ◌∙◌, arith,
  beq_eq, beq_refl, Bool-cases, Option-cases, inl, inr,
}
use tugas3_sinkronisasi_dist.Queue.{or_id, pending, QueueMessage, MessageData, message_from_dict}
use tugas3_sinkronisasi_dist.Queue.Ring.{HashRing, get_node}
use tugas3_sinkronisasi_dist.Unified.Messages.{
  NodeQueue, put_message, node_enqueue, node_replicate, node_dequeue, node_ack, QueueRequest,
  enqueue_request, replicate_request, dequeue_request, ack_request, queue_request, handed,
  queue_requests, delivered,
}

module _ {P : Type 0} where
  -- Every message stands under its own id, and the messages of the pending ids are there.
  pub record IsStored (q : NodeQueue P) : Type 0 where
    pub own :
        (id : String) (m : QueueMessage P) → lookup id q.queue_messages ≡ some m → m.msg_id ≡ id
    pub there : All (λ id. is_some (lookup id q.queue_messages) ≡ true) q.pending_queue

  -- The ids that the requests put in, in order.
  unfoldable pub put_in : List (QueueRequest P) → List String
  put_in [] = []
  put_in (enqueue_request now id payload key ∷ rs) = id ∷ put_in rs
  put_in (replicate_request now d ∷ rs) = elim (message_from_dict now d) [
    | none ↦ put_in rs
    | some m ↦ m.msg_id ∷ put_in rs
  ]
  put_in (dequeue_request now ∷ rs) = put_in rs
  put_in (ack_request id ∷ rs) = put_in rs

  there-insert :
      (id : String) (m : QueueMessage P) (messages : Dict String (QueueMessage P))
      (ids : List String)
      → All (λ i. is_some (lookup i messages) ≡ true) ids
      → All (λ i. is_some (lookup i (insert id m messages)) ≡ true) ids
  there-insert id m messages [] h = tt
  there-insert id m messages (i ∷ ids) h =
      (ground (arith, lookup-insert id i m messages, h.0), there-insert id m messages ids h.1)

  own-insert :
      (id : String) (m : QueueMessage P) (messages : Dict String (QueueMessage P))
      → m.msg_id ≡ id
      → ((j : String) (x : QueueMessage P) → lookup j messages ≡ some x → x.msg_id ≡ j)
      → (j : String) (x : QueueMessage P) → lookup j (insert id m messages) ≡ some x
      → x.msg_id ≡ j
  own-insert id m messages e own j x h = elim (Bool-cases (id == j)) [
    | inl same ↦
        let found : some m ≡ some x = sym (lookup-insert id j m messages ∙ (rw same refl)) ∙ h in
        let e' : m ≡ x = cc in ap (λ (y : QueueMessage P). y.msg_id) (sym e') ∙ e ∙ beq_eq id j same
    | inr differ ↦ own j x (sym (lookup-insert id j m messages ∙ (rw differ refl)) ∙ h)
  ]

  put_message-IsStored :
      (m : QueueMessage P) (q : NodeQueue P) → IsStored q → IsStored (put_message m q)
  put_message-IsStored m q h = record {
    own = own-insert m.msg_id m q.queue_messages refl h.own;
    there =
        All-append (λ id. is_some (lookup id (insert m.msg_id m q.queue_messages)) ≡ true)
          q.pending_queue (m.msg_id ∷ [])
          (there-insert m.msg_id m q.queue_messages q.pending_queue h.there)
          (
            ground (arith, lookup-insert m.msg_id m.msg_id m q.queue_messages, beq_refl m.msg_id),
            tt,
          );
  }

  -- A change of a message that is there, under its id.
  change-IsStored :
      (id : String) (m : QueueMessage P) (q : NodeQueue P)
      → m.msg_id ≡ id
      → IsStored q
      → IsStored (record q { queue_messages = insert id m q.queue_messages })
  change-IsStored id m q e h = record {
    own = own-insert id m q.queue_messages e h.own;
    there = there-insert id m q.queue_messages q.pending_queue h.there;
  }

module _ {P : Type 0} where
  ack-IsStored : (id : String) (q : NodeQueue P) → IsStored q → IsStored (node_ack id q).0
  unfolding node_ack
  ack-IsStored id q h = elim (Option-cases (lookup id q.queue_messages)) [
    | inl absent ↦ rw (absent, node_ack) h
    | inr (m, found) ↦ rw (found, node_ack) (change-IsStored id _ q (h.own id m found) h)
  ]

module _ {P : Type 0} where
  ack-pending_queue :
      (id : String) (q : NodeQueue P) → (node_ack id q).0.pending_queue ≡ q.pending_queue
  unfolding node_ack
  ack-pending_queue id q = ground arith

  -- A dequeue takes the first pending id off, hands its message out, and keeps what is stored.
  abbrev IsTaken : (now : ℕ) → NodeQueue P → Type 0
  IsTaken now q =
      IsStored (node_dequeue now q).0
      × (handed (node_dequeue now q).1 ++ (node_dequeue now q).0.pending_queue ≡ q.pending_queue)

  dequeue_pending :
      (now : ℕ) (ring : HashRing) (messages : Dict String (QueueMessage P)) (ids : List String)
      (total : ℕ)
      → IsStored (record {
        hash_ring = ring;
        queue_messages = messages;
        pending_queue = ids;
        enqueued_total = total;
      })
      → IsTaken now (record {
        hash_ring = ring;
        queue_messages = messages;
        pending_queue = ids;
        enqueued_total = total;
      })
  unfolding node_dequeue
  dequeue_pending now ring messages [] total h = (h, refl)
  dequeue_pending now ring messages (id ∷ ids) total h = elim (Option-cases (lookup id messages)) [
    | inl absent ↦ absurd (ground (arith, h.there.0, absent))
    | inr (m, found) ↦
        let q : NodeQueue P = record {
          hash_ring = ring;
          queue_messages = messages;
          pending_queue = ids;
          enqueued_total = total;
        } in
        let stored : IsStored q = record { own = h.own; there = h.there.1 } in
        let e = h.own id m found in
        rw (found, node_dequeue) (change-IsStored id _ q e stored, ap (λ i. i ∷ ids) e)
  ]

  dequeue-IsTaken : (now : ℕ) (q : NodeQueue P) → IsStored q → IsTaken now q
  dequeue-IsTaken now q h =
      dequeue_pending now q.hash_ring q.queue_messages q.pending_queue q.enqueued_total h

module _ {P : Type 0} where
  replicated_lem :
      (now : ℕ) (d : MessageData P) (rs : List (QueueRequest P)) (q : NodeQueue P)
      → IsStored q
      → IsStored (node_replicate now d q)
        × ((node_replicate now d q).pending_queue ++ put_in rs
            ≡ q.pending_queue ++ put_in (replicate_request now d ∷ rs))
  unfolding node_replicate put_in
  replicated_lem now d rs q h = elim (Option-cases (message_from_dict now d)) [
    | inl unread ↦ rw (unread, node_replicate, put_in) (h, refl)
    | inr (m, read) ↦
        rw (read, node_replicate, put_in)
          (put_message-IsStored m q h, append_assoc q.pending_queue (m.msg_id ∷ []) (put_in rs))
  ]

module _ {P : Type 0} (hash : String → ℕ) where
  enqueue-IsStored :
      (now : ℕ) (id : String) (payload : P) (key : String) (q : NodeQueue P)
      → IsStored q
      → IsStored (node_enqueue hash now id payload key q).0
  unfolding node_enqueue
  enqueue-IsStored now id payload key q h =
      let m : QueueMessage P = record {
        msg_id = id;
        payload = payload;
        partition_key = or_id key id;
        state = pending;
        retries = 0;
        max_retries = 3;
        created_at = now;
        assigned_node = get_node hash (or_id key id) q.hash_ring;
        processing_started = none;
      } in
      let stored = put_message-IsStored m q h in record { own = stored.own; there = stored.there }

  -- Whatever requests come, in any order, the ids that are handed out, followed by the pending ones, are
  -- those that were pending, followed by what the requests put in, in this order. So a message is handed out once for each time it
  -- is put in, and never again, also if it is not acknowledged.
  pub delivered_in_order :
      (rs : List (QueueRequest P)) (q : NodeQueue P)
      → IsStored q
      → delivered hash rs q ++ (queue_requests hash rs q).pending_queue
        ≡ q.pending_queue ++ put_in rs
  unfolding delivered queue_requests queue_request put_in node_enqueue
  delivered_in_order [] q h = sym (append-nil q.pending_queue)
  delivered_in_order (enqueue_request now id payload key ∷ rs) q h =
      let (q', d) = node_enqueue hash now id payload key q in
      delivered_in_order rs q' (enqueue-IsStored now id payload key q h)
      ∙ append_assoc q.pending_queue (id ∷ []) (put_in rs)
  delivered_in_order (replicate_request now d ∷ rs) q h =
      let (stored, moved) = replicated_lem now d rs q h in
      delivered_in_order rs (node_replicate now d q) stored ∙ moved
  delivered_in_order (dequeue_request now ∷ rs) q h =
      let (stored, taken) = dequeue-IsTaken now q h in
      let out = handed (node_dequeue now q).1 in
      let q' = (node_dequeue now q).0 in
      append_assoc out (delivered hash rs q') (queue_requests hash rs q').pending_queue
      ∙ ap (λ ids. out ++ ids) (delivered_in_order rs q' stored)
      ∙ sym (append_assoc out q'.pending_queue (put_in rs))
      ∙ ap (λ ids. ids ++ put_in rs) taken
  delivered_in_order (ack_request id ∷ rs) q h =
      delivered_in_order rs (node_ack id q).0 (ack-IsStored id q h)
      ∙ ap (λ ids. ids ++ put_in rs) (ack-pending_queue id q)
