-- ===== src/Queue/Pending.antt =====
-- nodes/queue_node.py: every pending message stands in the queue, and the queue holds no unknown id.
use tugas3_sinkronisasi_dist.Common.{
  ℕ, ◌+◌, String, true, false, ◌&&◌, none, some, List, [], ◌∷◌, leb, is_some, string_eq, nat_eq,
  ◌==◌, lookup, lookup-insert, member, member-snoc, All, All-append, ◌≡◌, ◌≢◌, refl, sym, ap, ◌∙◌,
  ◌⊎◌, inl, inr, arith, Bool-cases, Option-cases, beq_eq, beq_refl, subst,
}
use tugas3_sinkronisasi_dist.Queue.{
  pending, processing, completed, dead_letter, QueueMessage, QueueNode, is_pending_state,
  is_processing_state, overdue, new_queue, persist, keep, queue_up, time_out, replicate_enqueue,
  enqueue, deliver_found, dequeue, ack, check_timeout,
}
use tugas3_sinkronisasi_dist.Queue.Events.{
  QueueEvent, enqueued, copied, dequeued, acked, checked, queue_step, run_queue,
}

module _ {P : Type 0} where
  -- Messages stand under their ids, the pending ones are queued, and all queued ones are there.
  pub record IsQueue (n : QueueNode P) : Type 0 where
    pub keyed : (id : String) (m : QueueMessage P) → lookup id n.messages ≡ some m → m.msg_id ≡ id
    pub queued :
        (id : String) (m : QueueMessage P)
        → lookup id n.messages ≡ some m
        → m.state ≡ pending
        → member id n.pending_queue ≡ true
    pub known : All (λ id. is_some (lookup id n.messages) ≡ true) n.pending_queue

  -- What a kept message changes.
  keep-cases :
      (m : QueueMessage P) (n : QueueNode P) (id : String) (m' : QueueMessage P)
      → lookup id (keep m n).messages ≡ some m'
      → ((m.msg_id ≡ id) × (m ≡ m'))
        ⊎ (((m.msg_id == id) ≡ false) × (lookup id n.messages ≡ some m'))
  keep-cases m n id m' h = elim (Bool-cases (m.msg_id == id)) [
    | inl same ↦
        inl
          (beq_eq m.msg_id id same, ground (arith, h, same, lookup-insert m.msg_id id m n.messages))
    | inr other ↦ inr (other, ground (arith, h, other, lookup-insert m.msg_id id m n.messages))
  ]

  known-keep :
      (m : QueueMessage P) (n : QueueNode P) (ids : List String)
      → All (λ id. is_some (lookup id n.messages) ≡ true) ids
      → All (λ id. is_some (lookup id (keep m n).messages) ≡ true) ids
  known-keep m n [] h = tt
  known-keep m n (id ∷ ids) h =
      (ground (arith, h.0, lookup-insert m.msg_id id m n.messages), known-keep m n ids h.1)

  -- A message that is kept and is not pending.
  keep-IsQueue :
      (m : QueueMessage P) (n : QueueNode P)
      → m.state ≢ pending
      → IsQueue n
      → IsQueue (persist m (keep m n))
  keep-IsQueue m n busy q = record {
    keyed = λ id m' h. elim (keep-cases m n id m' h) [
      | inl (e, same) ↦ ap (λ x. x.msg_id) (sym same) ∙ e
      | inr (other, old) ↦ q.keyed id m' old
    ];
    queued = λ id m' h state. elim (keep-cases m n id m' h) [
      | inl (e, same) ↦ absurd (busy (ap (λ x. x.state) same ∙ state))
      | inr (other, old) ↦ q.queued id m' old state
    ];
    known = known-keep m n n.pending_queue q.known;
  }

  -- A message that is kept and queued.
  queue_up-IsQueue :
      (m : QueueMessage P) (n : QueueNode P)
      → IsQueue n
      → IsQueue (persist m (queue_up m.msg_id (keep m n)))
  queue_up-IsQueue m n q = record {
    keyed = λ id m' h. elim (keep-cases m n id m' h) [
      | inl (e, same) ↦ ap (λ x. x.msg_id) (sym same) ∙ e
      | inr (other, old) ↦ q.keyed id m' old
    ];
    queued = λ id m' h state. elim (keep-cases m n id m' h) [
      | inl (e, same) ↦ ground (arith, e, member-snoc id m.msg_id n.pending_queue, beq_refl id)
      | inr (other, old) ↦
          ground (arith, q.queued id m' old state, member-snoc id m.msg_id n.pending_queue)
    ];
    known =
        All-append (λ id. is_some (lookup id (keep m n).messages) ≡ true) n.pending_queue
          (m.msg_id ∷ []) (known-keep m n n.pending_queue q.known)
          (ground (arith, lookup-insert m.msg_id m.msg_id m n.messages, beq_refl m.msg_id), tt);
  }

  pub replicate-IsQueue :
      (m : QueueMessage P) (n : QueueNode P) → IsQueue n → IsQueue (replicate_enqueue m n)
  unfolding replicate_enqueue
  replicate-IsQueue m n q = elim (Bool-cases (is_pending_state m.state)) [
    | inl waiting ↦ rw (waiting, replicate_enqueue) (queue_up-IsQueue m n q)
    | inr busy ↦
        rw (busy, replicate_enqueue)
          (keep-IsQueue m n (λ p. absurd (let e = ap is_pending_state p in ground (arith, e, busy)))
            q)
  ]

  -- The head of the queue is taken off and marked as processing.
  deliver-IsQueue :
      (now : ℕ) (id : String) (rest : List String) (n : QueueNode P)
      → n.pending_queue ≡ id ∷ rest
      → IsQueue n
      → IsQueue (deliver_found now (lookup id n.messages) (record n { pending_queue = rest })).0
  deliver-IsQueue now id rest n front q =
      let all : All (λ id. is_some (lookup id n.messages) ≡ true) (id ∷ rest) =
        subst (All (λ id. is_some (lookup id n.messages) ≡ true)) front q.known in
      elim (Option-cases (lookup id n.messages)) [
        | inl absent ↦ absurd (ground (arith, absent, all.0))
        | inr (m, there) ↦
            let m' : QueueMessage P = record m {
              state = processing;
              processing_started = some now;
            } in
            let n' : QueueNode P = record n { pending_queue = rest } in
            rw there (record {
              keyed = λ j x h. elim (keep-cases m' n' j x h) [
                | inl (e, same) ↦ ap (λ x. x.msg_id) (sym same) ∙ e
                | inr (other, old) ↦ q.keyed j x old
              ];
              queued = λ j x h state. elim (keep-cases m' n' j x h) [
                | inl (e, same) ↦
                    absurd (let p : processing ≡ pending = ap (λ x. x.state) same ∙ state in cc)
                | inr (other, old) ↦
                    let before : member j (id ∷ rest) ≡ true =
                      ap (member j) (sym front) ∙ q.queued j x old state in
                    let key : m.msg_id ≡ id = q.keyed id m there in
                    unfold member in ground (arith, before, other, key)
              ];
              known = known-keep m' n' rest all.1;
            })
      ]

  dequeue-IsQueue : (now : ℕ) (n : QueueNode P) → IsQueue n → IsQueue (dequeue now n).0
  unfolding dequeue
  dequeue-IsQueue now n q = go n.pending_queue refl
    where
      go : (ids : List String) → n.pending_queue ≡ ids → IsQueue (dequeue now n).0
      go [] e = rw (e, dequeue) q
      go (id ∷ rest) e = rw (e, dequeue) (deliver-IsQueue now id rest n e q)

  ack-IsQueue : (id : String) (n : QueueNode P) → IsQueue n → IsQueue (ack id n).0
  unfolding ack
  ack-IsQueue id n q = elim (Option-cases (lookup id n.messages)) [
    | inl absent ↦ rw (absent, ack) q
    | inr (m, there) ↦
        rw (there, ack)
          (keep-IsQueue (record m { state = completed }) n
            (λ p. let e : completed ≡ pending = p in absurd cc) q)
  ]

  time_out-IsQueue : (m : QueueMessage P) (n : QueueNode P) → IsQueue n → IsQueue (time_out m n)
  time_out-IsQueue m n q = elim (Bool-cases (leb m.max_retries (m.retries + 1))) [
    | inl dead ↦ rw dead (
        keep-IsQueue (record m { retries = m.retries + 1; state = dead_letter }) n
          (λ p. let e : dead_letter ≡ pending = p in absurd cc) q)
    | inr again ↦ rw again (
        queue_up-IsQueue
          (record m { retries = m.retries + 1; state = pending; processing_started = none }) n q)
  ]

  check-IsQueue :
      (now : ℕ) (id : String) (n : QueueNode P) → IsQueue n → IsQueue (check_timeout now id n)
  unfolding check_timeout
  check-IsQueue now id n q = elim (Option-cases (lookup id n.messages)) [
    | inl absent ↦ rw (absent, check_timeout) q
    | inr (m, there) ↦
        elim (Bool-cases
          (is_processing_state m.state && overdue now n.processing_timeout m.processing_started)) [
            | inl late ↦ rw (there, late, check_timeout) (time_out-IsQueue m n q)
            | inr early ↦ rw (there, early, check_timeout) q
          ]
  ]

  pub new_queue-IsQueue : (replicas factor : ℕ) → IsQueue (new_queue replicas factor)
  new_queue-IsQueue replicas factor = record {
    keyed = λ id m h. absurd (unfold lookup in cc);
    queued = λ id m h state. absurd (unfold lookup in cc);
    known = tt;
  }

  module _ (hash : String → ℕ) where
    step-IsQueue : (e : QueueEvent P) (n : QueueNode P) → IsQueue n → IsQueue (queue_step hash e n)
    unfolding queue_step enqueue
    step-IsQueue (enqueued now msg_id payload partition_key) n q =
        queue_up-IsQueue (enqueue hash now msg_id payload partition_key n).1 n q
    step-IsQueue (copied m) n q = replicate-IsQueue m n q
    step-IsQueue (dequeued now) n q = dequeue-IsQueue now n q
    step-IsQueue (acked msg_id) n q = ack-IsQueue msg_id n q
    step-IsQueue (checked now msg_id) n q = check-IsQueue now msg_id n q

    run-from :
        (es : List (QueueEvent P)) (n : QueueNode P) → IsQueue n → IsQueue (run_queue hash es n)
    unfolding run_queue
    run-from [] n q = q
    run-from (e ∷ es) n q = run-from es (queue_step hash e n) (step-IsQueue e n q)

    -- After any events of a new node, every message stands under its id, every pending message is
    -- queued, and every queued id has a message.
    pub run_queue-IsQueue :
        (es : List (QueueEvent P)) (replicas factor : ℕ)
        → IsQueue (run_queue hash es (new_queue replicas factor))
    run_queue-IsQueue es replicas factor =
        run-from es (new_queue replicas factor) (new_queue-IsQueue replicas factor)
