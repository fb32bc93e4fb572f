-- ===== src/Failures/Tests.antt =====
-- communication/failure_detector.py: three peers, and the theorem at them.
use tugas3_sinkronisasi_dist.Common.{string_eq, lookup, insert, ◌≡◌, refl}
use tugas3_sinkronisasi_dist.Failures.{
  alive, suspected, dead, unknown, FailureDetector, new_detector, get_status, register_peer,
  record_heartbeat, classify, check_node, check_nodes, monitor_round,
}
use tugas3_sinkronisasi_dist.Failures.Rounds.{changes, status_after}

program : Unit {0}
unfolding lookup insert register_peer record_heartbeat classify check_node check_nodes monitor_round
    changes status_after
program = tt

-- `a` was last heard of at 1, `b` at 8, `c` at 12.
abbrev detector : FailureDetector
detector =
    record_heartbeat 12 "c"
      (record_heartbeat 8 "b" (register_peer 1 "b" (register_peer 1 "a" (new_detector 3 10))))

statuses :
    (get_status "a" (monitor_round 12 detector) ≡ dead)
    × (get_status "b" (monitor_round 12 detector) ≡ suspected)
    × (get_status "c" (monitor_round 12 detector) ≡ alive)
    × (get_status "d" (monitor_round 12 detector) ≡ unknown)
unfolding program
statuses = (refl, refl, refl, refl)
