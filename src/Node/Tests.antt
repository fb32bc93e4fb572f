-- ===== src/Node/Tests.antt =====
-- nodes/base_node.py: a node of two peers, and the theorem at it.
use tugas3_sinkronisasi_dist.Common.{
  ℕ, ◌-◌, Bool, none, some, [], ◌∷◌, if◌then◌else◌, string_eq, ◌==◌, lookup, insert, join, ◌≡◌,
  refl, ne_of_beq,
}
use tugas3_sinkronisasi_dist.Failures.{
  alive, dead, FailureDetector, get_status, register_peer, record_heartbeat, classify, check_node,
  check_nodes, monitor_round, status_texts,
}
use tugas3_sinkronisasi_dist.Messaging.{
  ping, vote_request, find_type, parse_type, from_dict, to_dict, new_message, Peer,
}
use tugas3_sinkronisasi_dist.Metrics.{
  label_texts, place_item, sorted_items, make_key, counter_inc, gauge_set,
}
use tugas3_sinkronisasi_dist.Node.{
  BaseNode, new_base, register_peers, start, stop, heartbeat_round, pong_from, unhandled,
  handle_message, handle_rpc, health,
}
use tugas3_sinkronisasi_dist.Node.Heartbeats.{rounds_detect}

program : Unit {0}
unfolding lookup insert join register_peer record_heartbeat classify check_node check_nodes
    monitor_round status_texts find_type parse_type from_dict to_dict label_texts place_item
    sorted_items make_key counter_inc gauge_set register_peers start stop heartbeat_round
    handle_message handle_rpc health
program = tt

abbrev peer_a : Peer
peer_a = record { node_id = "a"; host = "a"; port = 1 }

abbrev peer_b : Peer
peer_b = record { node_id = "b"; host = "b"; port = 2 }

abbrev started : BaseNode
started = start 1 (new_base "n" "eu-west" (peer_a ∷ peer_b ∷ []))

abbrev answers : Peer → Bool
answers p = p.node_id == "a"

abbrev detected : FailureDetector
detected =
    monitor_round 20
      (heartbeat_round answers (λ p. 18) (peer_a ∷ peer_b ∷ []) started.failure_detector)

statuses : (get_status "a" detected ≡ alive) × (get_status "b" detected ≡ dead)
unfolding program
statuses = (refl, refl)

-- A message from a node that is no peer makes it a monitored one.
rpc_counts :
    let (n, answer) =
      handle_rpc {V = ℕ} 3 (some (to_dict (new_message 2 ping "c" [] 0 0))) started in
    (answer ≡ some (pong_from "n"))
    × (get_status "c" n.failure_detector ≡ alive)
    × (lookup "rpc_received_total{type=\"ping\"}" n.metrics.counters ≡ some 1)
unfolding program
rpc_counts = (refl, refl, refl)

rpc_fails :
    (handle_rpc {V = ℕ} 3 none started ≡ (started, none))
    × ((handle_rpc {V = ℕ} 3 (some (to_dict (new_message 2 vote_request "a" [] 0 0))) started).1
        ≡ some (unhandled "vote_request"))
    × (health (stop started) ≡ ("n", "unhealthy", "eu-west", ("a", "alive") ∷ ("b", "alive") ∷ []))
unfolding program
rpc_fails = (refl, refl, refl)

rounds_detect_example :
    get_status "b" (
      monitor_round 20
        (heartbeat_round answers (λ p. 18) (peer_a ∷ peer_b ∷ []) started.failure_detector))
    ≡ classify (20 - (if answers peer_b then 18 else 1)) started.failure_detector
rounds_detect_example =
    rounds_detect answers (λ p. 18) 20 1 peer_b (peer_a ∷ []) [] started.failure_detector
      (ne_of_beq "a" "b" refl, tt) tt (unfold program in (refl, (refl, tt)))
      (unfold program in refl)
