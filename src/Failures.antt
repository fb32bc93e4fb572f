-- ===== src/Failures.antt =====
-- communication/failure_detector.py: `FailureDetector`. The clock is the argument `now`, which never
-- lies before a heartbeat. What the callbacks are given is kept in order.
pub mod Rounds
pub mod Tests
use tugas3_sinkronisasi_dist.Common.{
  ℕ, ◌-◌, String, Bool, true, false, Option, none, some, List, [], ◌∷◌, ◌++◌, ltb, if◌then◌else◌,
  or_else, string_eq, Dict, lookup, insert,
}

pub data NodeStatus : Type 0 where
  alive suspected dead unknown : NodeStatus

abbrev pub same_status : NodeStatus → NodeStatus → Bool
same_status alive alive = true
same_status suspected suspected = true
same_status dead dead = true
same_status unknown unknown = true
same_status _ _ = false

-- A call of the status callbacks.
pub record Change : Type 0 where
  pub node_id : String
  pub old_status : NodeStatus
  pub new_status : NodeStatus

pub record FailureDetector : Type 0 where
  pub suspect_timeout : ℕ
  pub dead_timeout : ℕ
  pub last_heartbeat : Dict String ℕ
  pub node_status : Dict String NodeStatus
  pub notified : List Change

abbrev pub new_detector : (suspect_timeout dead_timeout : ℕ) → FailureDetector
new_detector suspect_timeout dead_timeout = record {
  suspect_timeout = suspect_timeout;
  dead_timeout = dead_timeout;
  last_heartbeat = [];
  node_status = [];
  notified = [];
}

abbrev pub get_status : String → FailureDetector → NodeStatus
get_status node_id f = or_else (lookup node_id f.node_status) unknown

unfoldable pub register_peer : (now : ℕ) (node_id : String) → FailureDetector → FailureDetector
register_peer now node_id f = record f {
  last_heartbeat = insert node_id now f.last_heartbeat;
  node_status = insert node_id alive f.node_status;
}

-- `self._node_status[node_id] = new_status`, then `_notify_status_change`
abbrev pub change_status :
    (node_id : String) (old new : NodeStatus) → FailureDetector → FailureDetector
change_status node_id old new f = record f {
  node_status = insert node_id new f.node_status;
  notified = f.notified ++ record { node_id = node_id; old_status = old; new_status = new } ∷ [];
}

unfoldable pub record_heartbeat : (now : ℕ) (node_id : String) → FailureDetector → FailureDetector
record_heartbeat now node_id f =
    let f' = record f { last_heartbeat = insert node_id now f.last_heartbeat } in
    let old_status = get_status node_id f' in
    if same_status old_status alive then f' else change_status node_id old_status alive f'

-- The status that a time without heartbeats gives.
unfoldable pub classify : (elapsed : ℕ) → FailureDetector → NodeStatus
classify elapsed f =
    if ltb f.dead_timeout elapsed
    then dead
    else if ltb f.suspect_timeout elapsed
    then suspected
    else alive

unfoldable pub check_node :
    (now : ℕ) (node_id : String) (last_hb : ℕ) → FailureDetector → FailureDetector
check_node now node_id last_hb f =
    let old_status = get_status node_id f in
    let new_status = classify (now - last_hb) f in
    if same_status new_status old_status then f else change_status node_id old_status new_status f

-- One round of `_monitor_loop` over these items of `_last_heartbeat`, which it does not change.
unfoldable pub check_nodes : (now : ℕ) → Dict String ℕ → FailureDetector → FailureDetector
check_nodes now [] f = f
check_nodes now ((node_id, last_hb) ∷ items) f =
    check_nodes now items (check_node now node_id last_hb f)

unfoldable pub monitor_round : (now : ℕ) → FailureDetector → FailureDetector
monitor_round now f = check_nodes now f.last_heartbeat f

abbrev pub status_value : NodeStatus → String
status_value alive = "alive"
status_value suspected = "suspected"
status_value dead = "dead"
status_value unknown = "unknown"

unfoldable pub alive_in : Dict String NodeStatus → List String
alive_in [] = []
alive_in ((node_id, status) ∷ statuses) =
    let rest = alive_in statuses in if same_status status alive then node_id ∷ rest else rest

abbrev pub get_alive_nodes : FailureDetector → List String
get_alive_nodes f = alive_in f.node_status

unfoldable pub status_texts : Dict String NodeStatus → Dict String String
status_texts [] = []
status_texts ((node_id, status) ∷ statuses) = (node_id, status_value status) ∷ status_texts statuses

abbrev pub get_all_statuses : FailureDetector → Dict String String
get_all_statuses f = status_texts f.node_status
