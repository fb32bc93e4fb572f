-- ===== src/Queue/Restart.antt =====
-- nodes/queue_node.py: a `QueueNode` that starts has the messages again that Redis kept.
use tugas3_sinkronisasi_dist.Common.{
  ℕ, String, true, false, none, some, List, [], ◌∷◌, ◌++◌, map, if◌then◌else◌, string_eq, nat_eq,
  lookup, member, All, append_assoc, append-nil, subst, sorted, ◌⊎◌, insert-absent, lookup-append,
  ◌≡◌, ◌≢◌, beq_ne, refl, sym, ap, ◌∙◌, arith, Bool-cases, Option-cases, inl, inr,
}
use tugas3_sinkronisasi_dist.Queue.{
  pending, processing, completed, failed, dead_letter, MessageState, state_value, parse_state,
  QueueMessage, QueueNode, is_pending_state, created, or_id, message_to_dict, message_from_dict,
  new_queue, replicate_enqueue,
}
use tugas3_sinkronisasi_dist.Queue.Ring.{HashRing, add_node, new_ring}
use tugas3_sinkronisasi_dist.Queue.Placement.{IsIndexed}
use tugas3_sinkronisasi_dist.Queue.Pending.{IsQueue, replicate-IsQueue, new_queue-IsQueue}
use tugas3_sinkronisasi_dist.Queue.Turns.{Distinct}
use tugas3_sinkronisasi_dist.Queue.Recovery.{
  Stored, gone, unreadable, stored, take_back, recover, add_nodes, start,
}

parse-state_value : (s : MessageState) → parse_state (state_value s) ≡ some s
unfolding parse_state
parse-state_value pending = refl
parse-state_value processing = refl
parse-state_value completed = refl
parse-state_value failed = refl
parse-state_value dead_letter = refl

module _ {P : Type 0} where
  -- The texts of messages, as `_persist_message` writes them.
  abbrev pub written : List (QueueMessage P) → List (Stored P)
  written = map (λ m. stored (message_to_dict m))

  abbrev pub ids_of : List (QueueMessage P) → List String
  ids_of = map (λ m. m.msg_id)

  unfoldable pub pending_ids : List (QueueMessage P) → List String
  pending_ids [] = []
  pending_ids (m ∷ ms) =
      let rest = pending_ids ms in if is_pending_state m.state then m.msg_id ∷ rest else rest

  from_dict-to_dict :
      (now : ℕ) (m : QueueMessage P)
      → m.created_at ≢ 0
      → m.partition_key ≢ ""
      → message_from_dict now (message_to_dict m) ≡ some m
  unfolding message_from_dict message_to_dict
  from_dict-to_dict now m timed keyed =
      let k : or_id m.partition_key m.msg_id ≡ m.partition_key =
        rw (beq_ne m.partition_key "" keyed) refl in
      let e : created now m.created_at ≡ m.created_at = ground (arith, timed) in
      rw (parse-state_value m.state, message_from_dict, e, k) refl

  take_back_lem :
      (m : QueueMessage P) (n : QueueNode P)
      → lookup m.msg_id n.messages ≡ none
      → ((take_back m n).messages ≡ n.messages ++ (m.msg_id, m) ∷ [])
        × ((take_back m n).pending_queue ≡ n.pending_queue ++ pending_ids (m ∷ []))
  unfolding pending_ids
  take_back_lem m n fresh = elim (Bool-cases (is_pending_state m.state)) [
    | inl waiting ↦ (rw waiting (insert-absent m.msg_id m n.messages fresh), rw waiting refl)
    | inr busy ↦ (
      rw busy (insert-absent m.msg_id m n.messages fresh),
      rw busy (sym (append-nil n.pending_queue)),
    )
  ]

  pending_ids-cons :
      (m : QueueMessage P) (ms : List (QueueMessage P))
      → pending_ids (m ∷ []) ++ pending_ids ms ≡ pending_ids (m ∷ ms)
  unfolding pending_ids
  pending_ids-cons m ms = elim (Bool-cases (is_pending_state m.state)) [
    | inl waiting ↦ rw waiting refl
    | inr busy ↦ rw busy refl
  ]

  -- The messages that come are not there yet.
  abbrev Absent : List (QueueMessage P) → QueueNode P → Type 0
  Absent ms n = All (λ (m : QueueMessage P). lookup m.msg_id n.messages ≡ none) ms

  take_back-Absent :
      (m : QueueMessage P) (ms : List (QueueMessage P)) (n n' : QueueNode P)
      → n'.messages ≡ n.messages ++ (m.msg_id, m) ∷ []
      → member m.msg_id (ids_of ms) ≡ false
      → Absent ms n
      → Absent ms n'
  unfolding member
  take_back-Absent m [] n n' e other absent = tt
  take_back-Absent m (x ∷ ms) n n' e other absent = (
    ground (
      arith,
      e,
      lookup-append x.msg_id m.msg_id m n.messages,
      absent.0,
      other,
      string_eq.same_iff x.msg_id m.msg_id,
      string_eq.same_iff m.msg_id x.msg_id,
    ),
    take_back-Absent m ms n n' e (ground (arith, other)) absent.1,
  )

  recover_from :
      (now : ℕ) (ms : List (QueueMessage P)) (n : QueueNode P)
      → All (λ (m : QueueMessage P). m.created_at ≢ 0) ms
      → All (λ (m : QueueMessage P). m.partition_key ≢ "") ms
      → Distinct (ids_of ms)
      → Absent ms n
      → ((recover now (written ms) n).messages
          ≡ n.messages ++ map (λ (m : QueueMessage P). (m.msg_id, m)) ms)
        × ((recover now (written ms) n).pending_queue ≡ n.pending_queue ++ pending_ids ms)
  unfolding recover
  recover_from now [] n timed keyed distinct absent =
      (sym (append-nil n.messages), unfold pending_ids in sym (append-nil n.pending_queue))
  recover_from now (m ∷ ms) n timed keyed distinct absent =
      let (e, e') = take_back_lem m n absent.0 in
      let (ih, ih') =
        recover_from now ms (take_back m n) timed.1 keyed.1 distinct.1
          (take_back-Absent m ms n (take_back m n) e distinct.0 absent.1) in
      rw (from_dict-to_dict now m timed.0 keyed.0, recover)
        (
          ih
              ∙ ap (λ l. l ++ map (λ (m : QueueMessage P). (m.msg_id, m)) ms) e
              ∙ append_assoc n.messages ((m.msg_id, m) ∷ [])
                  (map (λ (m : QueueMessage P). (m.msg_id, m)) ms),
          ih'
              ∙ ap (λ l. l ++ pending_ids ms) e'
              ∙ append_assoc n.pending_queue (pending_ids (m ∷ [])) (pending_ids ms)
              ∙ ap (λ l. n.pending_queue ++ l) (pending_ids-cons m ms),
        )

  take_back-IsQueue : (m : QueueMessage P) (n : QueueNode P) → IsQueue n → IsQueue (take_back m n)
  unfolding replicate_enqueue
  take_back-IsQueue m n q =
      let q' = replicate-IsQueue m n q in
      record { keyed = q'.keyed; queued = q'.queued; known = q'.known }

  recover-IsQueue :
      (now : ℕ) (ds : List (Stored P)) (n : QueueNode P) → IsQueue n → IsQueue (recover now ds n)
  unfolding recover
  recover-IsQueue now [] n q = q
  recover-IsQueue now (gone ∷ ds) n q = recover-IsQueue now ds n q
  recover-IsQueue now (unreadable ∷ ds) n q = q
  recover-IsQueue now (stored d ∷ ds) n q = elim (Option-cases (message_from_dict now d)) [
    | inl odd ↦ rw (odd, recover) q
    | inr (m, read) ↦
        rw (read, recover) (recover-IsQueue now ds (take_back m n) (take_back-IsQueue m n q))
  ]

  recover-hash_ring :
      (now : ℕ) (ds : List (Stored P)) (n : QueueNode P)
      → (recover now ds n).hash_ring ≡ n.hash_ring
  unfolding recover
  recover-hash_ring now [] n = refl
  recover-hash_ring now (gone ∷ ds) n = recover-hash_ring now ds n
  recover-hash_ring now (unreadable ∷ ds) n = refl
  recover-hash_ring now (stored d ∷ ds) n = elim (Option-cases (message_from_dict now d)) [
    | inl odd ↦ rw (odd, recover) refl
    | inr (m, read) ↦
        rw (read, recover)
          (recover-hash_ring now ds (take_back m n)
            ∙ same m (Bool-cases (is_pending_state m.state)))
  ]
    where
      same :
          (m : QueueMessage P)
          → (is_pending_state m.state ≡ true) ⊎ (is_pending_state m.state ≡ false)
          → (take_back m n).hash_ring ≡ n.hash_ring
      same m (inl waiting) = rw waiting refl
      same m (inr busy) = rw busy refl

add_nodes-IsIndexed :
    (point : String → ℕ → ℕ) (xs : List String) (r : HashRing)
    → IsIndexed r
    → IsIndexed (add_nodes point xs r)
unfolding add_nodes add_node
add_nodes-IsIndexed point [] r h = h
add_nodes-IsIndexed point (x ∷ xs) r h = add_nodes-IsIndexed point xs (add_node point x r) refl

module _ {P : Type 0} where
  none_there :
      (ms : List (QueueMessage P)) (replicas factor : ℕ) → Absent ms (new_queue replicas factor)
  unfolding lookup
  none_there [] replicas factor = tt
  none_there (m ∷ ms) replicas factor = (refl, none_there ms replicas factor)

  -- A new node that starts while Redis has the texts of some messages, with different ids and with
  -- times and partition keys, has these messages again. Its queue is the pending ones in the order of the scan, every
  -- message stands under its id, and the keys of its ring are sorted.
  pub start_lem :
      (point : String → ℕ → ℕ) (node_id : String) (peers : List String) (now replicas factor : ℕ)
      (ms : List (QueueMessage P))
      → All (λ (m : QueueMessage P). m.created_at ≢ 0) ms
      → All (λ (m : QueueMessage P). m.partition_key ≢ "") ms
      → Distinct (ids_of ms)
      → let n = start point node_id peers now (written ms) (new_queue replicas factor) in
        (n.messages ≡ map (λ (m : QueueMessage P). (m.msg_id, m)) ms)
        × (n.pending_queue ≡ pending_ids ms)
        × IsQueue n
        × IsIndexed n.hash_ring
  unfolding start
  start_lem point node_id peers now replicas factor ms timed keyed distinct =
      let n : QueueNode P = record (new_queue replicas factor) {
        hash_ring = add_nodes point (node_id ∷ peers) (new_ring replicas);
      } in
      let q = new_queue-IsQueue {P = P} replicas factor in
      let (e, e') = recover_from now ms n timed keyed distinct (none_there ms replicas factor) in
      (
        e,
        e',
        recover-IsQueue now (written ms) n
            (record { keyed = q.keyed; queued = q.queued; known = q.known }),
        subst IsIndexed (sym (recover-hash_ring now (written ms) n)) (
            add_nodes-IsIndexed point (node_id ∷ peers) (new_ring replicas)
              (unfold sorted in refl)),
      )
