-- ===== src/Node.antt =====
-- nodes/base_node.py: `BaseNode`, with the failure detector and the metrics as its parts. The HTTP server
-- and the tasks are left out: `running` says whether the node has been started. The clock is the
-- argument `now`, in whole seconds.
pub mod Heartbeats
pub mod Tests
use tugas3_sinkronisasi_dist.Common.{
  ℕ, String, Bool, true, false, Option, none, some, List, [], ◌∷◌, Dict, lookup, string_eq, ℤ, pos,
}
use tugas3_sinkronisasi_dist.Failures.{
  get_all_statuses, FailureDetector, new_detector, register_peer, record_heartbeat,
}
use tugas3_sinkronisasi_dist.Messaging.{
  MessageType, heartbeat, ping, type_value, Message, MessageData, from_dict, new_message, Peer,
}
use tugas3_sinkronisasi_dist.Metrics.{Metrics, new_metrics, counter_inc, gauge_set}

pub record BaseNode : Type 0 where
  pub node_id : String
  pub region : String
  pub peers : List Peer
  pub failure_detector : FailureDetector
  pub metrics : Metrics
  pub running : Bool

abbrev pub new_base : (node_id region : String) (peers : List Peer) → BaseNode
new_base node_id region peers = record {
  node_id = node_id;
  region = region;
  peers = peers;
  failure_detector = new_detector 5 15;
  metrics = new_metrics node_id;
  running = false;
}

unfoldable pub register_peers : (now : ℕ) → List Peer → FailureDetector → FailureDetector
register_peers now [] f = f
register_peers now (peer ∷ peers) f = register_peers now peers (register_peer now peer.node_id f)

unfoldable pub start : (now : ℕ) → BaseNode → BaseNode
start now n = record n {
  failure_detector = register_peers now n.peers n.failure_detector;
  running = true;
  metrics = counter_inc "node_starts_total" 1 [] (gauge_set "node_up" (pos 1) [] n.metrics);
}

unfoldable pub stop : BaseNode → BaseNode
stop n = record n { running = false; metrics = gauge_set "node_up" (pos 0) [] n.metrics }

-- One round of `_heartbeat_loop`: `answered` says of which peers the reply is there. The peers are
-- waited for one after the other, so each has its own time.
unfoldable pub heartbeat_round :
    (answered : Peer → Bool) (now : Peer → ℕ) → List Peer → FailureDetector → FailureDetector
heartbeat_round answered now [] f = f
heartbeat_round answered now (peer ∷ peers) f =
    heartbeat_round answered now peers
      (elim (answered peer) [ true ↦ record_heartbeat (now peer) peer.node_id f | false ↦ f ])

-- What `handle_message` answers.
pub data NodeAnswer : Type 0 where
  pong_from : (sender_id : String) → NodeAnswer
  alive_node : (node_id : String) → NodeAnswer
  unhandled : (msg_type : String) → NodeAnswer

abbrev pub handle_type : MessageType → BaseNode → NodeAnswer
handle_type ping n = pong_from n.node_id
handle_type heartbeat n = alive_node n.node_id
handle_type t n = unhandled (type_value t)

module _ {V : Type 0} where
  abbrev pub heartbeat_message : (now : ℕ) (status : V) → BaseNode → Message V
  heartbeat_message now status n = new_message now heartbeat n.node_id (("status", status) ∷ []) 0 0

  unfoldable pub handle_message : Message V → BaseNode → NodeAnswer
  handle_message m n = handle_type m.msg_type n

  -- `_handle_rpc`. A body that is no JSON dictionary is `none`; with it, and with one that is no
  -- message, the answer is a 500, which is `none`, and nothing changes.
  unfoldable pub handle_rpc :
      (now : ℕ) → Option (MessageData V) → BaseNode → BaseNode × Option NodeAnswer
  handle_rpc now none n = (n, none)
  handle_rpc now (some body) n = elim (from_dict now body) [
    | none ↦ (n, none)
    | some m ↦
        let n' = record n {
          failure_detector = record_heartbeat now m.sender_id n.failure_detector;
          metrics =
              counter_inc "rpc_received_total" 1 (("type", type_value m.msg_type) ∷ []) n.metrics;
        } in
        (n', some (handle_message m n'))
  ]

-- `_handle_health`
unfoldable pub health : BaseNode → String × String × String × Dict String String
health n = (
  n.node_id,
  (elim n.running [ true ↦ "healthy" | false ↦ "unhealthy" ]),
  n.region,
  get_all_statuses n.failure_detector,
)
