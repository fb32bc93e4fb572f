-- ===== src/Queue/Tests.antt =====
-- nodes/queue_node.py: a ring of two nodes and a queue of two messages, and the theorems at them.
use tugas3_sinkronisasi_dist.Common.{
  ℕ, zero, suc, ◌+◌, ◌<◌, String, Option, none, some, List, [], ◌∷◌, if◌then◌else◌, ◌==◌, string_eq,
  nat_eq, lookup, insert, pop, member, sorted, place, add, discard, ◌≡◌, refl, ◌⊎◌, arith,
  ne_of_beq, map,
}
use tugas3_sinkronisasi_dist.Queue.Ring.{
  HashRing, new_ring, first_from, put_points, pop_points, add_node, remove_node, get_node,
  first_index, collect, get_nodes_for_key,
}
use tugas3_sinkronisasi_dist.Queue.Owners.{AreNodesFor, get_nodes_for_key_lem}
use tugas3_sinkronisasi_dist.Queue.Stability.{Takes, remove_node_moves_own, add_node_moves_to_new}
use tugas3_sinkronisasi_dist.Queue.Events.{
  QueueEvent, enqueued, dequeued, acked, checked, queue_step, run_queue,
}
use tugas3_sinkronisasi_dist.Queue.Recovery.{recover, add_nodes, start}
use tugas3_sinkronisasi_dist.Queue.Restart.{written, pending_ids, start_lem}
use tugas3_sinkronisasi_dist.Queue.Placement.{IsIndexed}
use tugas3_sinkronisasi_dist.Queue.Pending.{IsQueue, run_queue-IsQueue}
use tugas3_sinkronisasi_dist.Queue.{
  MessageState, pending, processing, QueueMessage, QueueNode, new_queue, replicate_enqueue, enqueue,
  dequeue, ack, check_timeout, message_to_dict, message_from_dict, parse_state,
}

program : Unit {0}
unfolding lookup insert pop member sorted place add discard first_from put_points pop_points
    add_node remove_node get_node queue_step run_queue replicate_enqueue enqueue dequeue ack
    check_timeout first_index collect get_nodes_for_key recover add_nodes start message_to_dict
    message_from_dict parse_state
program = tt

abbrev hash : String → ℕ
hash s = if s == "x" then 15 else 22

abbrev point : String → ℕ → ℕ
point s i = (if s == "a" then 10 else 20) + i

-- The ring of `a` with points 10 and 11 and `b` with points 20 and 21.
abbrev two : HashRing
two = add_node point "b" (add_node point "a" (new_ring 2))

two-nodes : (get_node hash "x" two ≡ some "b") × (get_node hash "y" two ≡ some "a")
unfolding program
two-nodes = (refl, refl)

own : (i : ℕ) (o : String) → i < two.replicas → lookup (point "b" i) two.ring ≡ some o → o ≡ "b"
unfolding program
own zero o lt h = cc
own (suc zero) o lt h = cc
own (suc (suc i)) o lt h = absurd (omega (arith, lt))

remove_node_moves_own_example : get_node hash "y" (remove_node point "b" two) ≡ some "a"
remove_node_moves_own_example =
    remove_node_moves_own point hash "y" "b" "a" two (unfold program in refl) own
      (unfold program in refl) (ne_of_beq "a" "b" refl)

add_node_moves_to_new_example :
    (Takes point hash "x" "c" two × (get_node hash "x" (add_node point "c" two) ≡ some "c"))
    ⊎ ((¬ Takes point hash "x" "c" two)
        × (get_node hash "x" (add_node point "c" two) ≡ get_node hash "x" two))
add_node_moves_to_new_example =
    add_node_moves_to_new point hash "x" "c" two (unfold program in refl)

-- Both nodes, from that of the key on; one where none is asked for.
two-all :
    (get_nodes_for_key hash "y" 5 two ≡ some ("a" ∷ "b" ∷ []))
    × (get_nodes_for_key hash "y" 0 two ≡ some ("a" ∷ []))
unfolding program
two-all = (refl, refl)

get_nodes_for_key_lem_example :
    (ns : List String) × (get_nodes_for_key hash "x" 5 two ≡ some ns)
    × AreNodesFor hash "x" 5 two ns
get_nodes_for_key_lem_example = get_nodes_for_key_lem hash "x" 5 two (unfold program in refl)

abbrev events : List (QueueEvent ℕ)
events =
    enqueued 1 "m" 7 "x"
    ∷ enqueued 2 "n" 8 "y"
    ∷ dequeued 3
    ∷ checked 40 "m"
    ∷ dequeued 41
    ∷ acked "n"
    ∷ []

abbrev after : QueueNode ℕ
after = run_queue hash events (new_queue 2 2)

run_queue-IsQueue_example : IsQueue after
run_queue-IsQueue_example = run_queue-IsQueue hash events 2 2

abbrev message :
    (msg_id : String) → MessageState → (retries created_at : ℕ) → Option ℕ → QueueMessage ℕ
message msg_id state retries created_at started = record {
  msg_id = msg_id;
  payload = created_at + 6;
  partition_key = if msg_id == "m" then "x" else "y";
  state = state;
  retries = retries;
  max_retries = 3;
  created_at = created_at;
  assigned_node = none;
  processing_started = started;
}

-- The queue after `m` was taken for the first time.
abbrev taken : QueueNode ℕ
taken =
    run_queue hash (enqueued 1 "m" 7 "x" ∷ enqueued 2 "n" 8 "y" ∷ dequeued 3 ∷ []) (new_queue 2 2)

-- `m` is processing and `n` waits.
abbrev kept : List (QueueMessage ℕ)
kept = message "m" processing 0 1 (some 3) ∷ message "n" pending 1 2 none ∷ []

abbrev restarted : QueueNode ℕ
restarted = start point "a" ("b" ∷ []) 50 (written kept) (new_queue 2 2)

again : (restarted.pending_queue ≡ "n" ∷ []) × (get_node hash "x" restarted.hash_ring ≡ some "b")
unfolding program
again = (refl, refl)

-- A scan may find a key twice; then its message is queued twice.
found_twice :
    (recover 50
      (written (message "n" pending 1 2 none ∷ message "n" pending 1 2 none ∷ []))
      (new_queue 2 2)).pending_queue
    ≡ "n" ∷ "n" ∷ []
unfolding program
found_twice = refl

start_lem_example :
    (restarted.messages ≡ map (λ (m : QueueMessage ℕ). (m.msg_id, m)) kept)
    × (restarted.pending_queue ≡ pending_ids kept)
    × IsQueue restarted
    × IsIndexed restarted.hash_ring
start_lem_example =
    start_lem point "a" ("b" ∷ []) 50 2 2 kept
      ((λ e. omega (arith, e)), ((λ e. omega (arith, e)), tt))
      (ne_of_beq "x" "" refl, (ne_of_beq "y" "" refl, tt)) (unfold program in (refl, (refl, tt)))
