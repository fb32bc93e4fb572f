-- ===== src/Unified/Tests.antt =====
-- main.py: a node with a lock, two messages and a cached value, and the theorems at them.
use tugas3_sinkronisasi_dist.Common.{
  true, ℕ, String, false, Option, none, some, List, [], ◌∷◌, ◌++◌, map, nat_eq, string_eq, ◌==◌,
  if◌then◌else◌, lookup, insert, pop, member, add, discard, place, sorted, length, ◌≡◌, refl, arith,
}
use tugas3_sinkronisasi_dist.Audit.{Content, log}
use tugas3_sinkronisasi_dist.Cache.Lines.{LruCache}
use tugas3_sinkronisasi_dist.Cache.Lines
use tugas3_sinkronisasi_dist.Config.{default_config}
use tugas3_sinkronisasi_dist.Failures.{register_peer, record_heartbeat}
use tugas3_sinkronisasi_dist.Locks.{exclusive, parse_lock_type, Command}
use tugas3_sinkronisasi_dist.Messaging.{Peer}
use tugas3_sinkronisasi_dist.Node.{heartbeat_round}
use tugas3_sinkronisasi_dist.Queue.{parse_state, message_to_dict, message_from_dict}
use tugas3_sinkronisasi_dist.Queue.Ring.{put_points, add_node, first_from, get_node}
use tugas3_sinkronisasi_dist.Rbac.{Stdlib}
use tugas3_sinkronisasi_dist.Raft.{init}
use tugas3_sinkronisasi_dist.Routing.{register_node}
use tugas3_sinkronisasi_dist.Unified.CacheLines.{
  NodeCache, new_node_cache, NodeReply, hit, node_invalidate, node_read, begin_get, first_found,
  finish_get, node_get, node_put, cache_stats,
}
use tugas3_sinkronisasi_dist.Unified.CacheReads.{read_replies, get_after_put}
use tugas3_sinkronisasi_dist.Unified.Fifo.{IsStored, put_in, delivered_in_order}
use tugas3_sinkronisasi_dist.Unified.LockCommands.{
  LockDict, take_lock, apply_command, apply_commands, lock_of,
}
use tugas3_sinkronisasi_dist.Unified.Messages.{
  NodeQueue, first_peers, node_enqueue, node_replicate, node_dequeue, node_ack, QueueRequest,
  enqueue_request, dequeue_request, ack_request, queue_request, queue_requests, delivered,
}
use tugas3_sinkronisasi_dist.Unified.Requests.{
  LockRequest, acquire_command, lock_status, finish_acquire, not_leader, answered, begin_acquire,
}
use tugas3_sinkronisasi_dist.Unified.Rpc.{NodeMessage, cache_read_body, dispatch_rpc, node_rpc}
use tugas3_sinkronisasi_dist.Unified.State.{
  DistributedNode, register_regions, add_peers, watch_peers, new_distributed, start_node, stop_node,
  node_heartbeats,
}
use tugas3_sinkronisasi_dist.Unified.Waiters.{waiter_is_not_granted}

program : Unit {0}
unfolding lookup insert pop member add discard place sorted log register_peer record_heartbeat
    parse_lock_type heartbeat_round parse_state message_to_dict message_from_dict put_points
    add_node first_from get_node init register_node Lines.get Lines.put Lines.invalidate
    Lines.set_last Lines.evict Lines.move_to_end node_invalidate node_read begin_get first_found
    finish_get node_get node_put put_in take_lock apply_command apply_commands first_peers
    node_enqueue node_replicate node_dequeue node_ack queue_request queue_requests delivered
    finish_acquire begin_acquire dispatch_rpc node_rpc register_regions add_peers watch_peers
    new_distributed start_node stop_node node_heartbeats
program = tt

abbrev command : String → String → Command
command action client_id = record {
  action = action;
  resource = "r";
  client_id = client_id;
  lock_type = none;
  lease_timeout = none;
}

abbrev asked : List Command
asked = command "acquire" "a" ∷ command "acquire" "b" ∷ []

-- After the holder's release the lock is free, and the other client still waits.
left_waiting : lock_of "r" (apply_commands (asked ++ command "release" "a" ∷ []) []) ≡ record {
  lock_type = some exclusive;
  holders = [];
  waiting = record { client_id = "b"; lock_type = "exclusive" } ∷ [];
  fencing_token = 1;
}
unfolding program
left_waiting = refl

waiter_is_not_granted_example :
    member "b"
      (lock_of "r" (apply_commands (command "release" "a" ∷ []) (apply_commands asked []))).holders
    ≡ false
waiter_is_not_granted_example =
    waiter_is_not_granted "b" "r" (command "release" "a" ∷ []) (apply_commands asked []) (refl, tt)
      (unfold program in refl)

abbrev empty_queue : NodeQueue ℕ
empty_queue = record {
  hash_ring = record { replicas = 1; ring = []; sorted_keys = []; nodes = [] };
  queue_messages = [];
  pending_queue = [];
  enqueued_total = 0;
}

abbrev requests : List (QueueRequest ℕ)
requests =
    enqueue_request 1 "m" 7 "k"
    ∷ enqueue_request 2 "n" 8 "k"
    ∷ dequeue_request 3
    ∷ ack_request "m"
    ∷ dequeue_request 4
    ∷ dequeue_request 5
    ∷ []

abbrev hash : String → ℕ
hash s = 0

hands_out : delivered hash requests empty_queue ≡ "m" ∷ "n" ∷ []
unfolding program
hands_out = refl

nothing-IsStored : IsStored empty_queue
nothing-IsStored = record { own = λ id m h. absurd (unfold program in cc); there = tt }

delivered_in_order_example :
    delivered hash requests empty_queue ++ (queue_requests hash requests empty_queue).pending_queue
    ≡ [] ++ put_in requests
delivered_in_order_example = delivered_in_order hash requests empty_queue nothing-IsStored

abbrev node_cache : NodeCache ℕ
node_cache = new_node_cache 2

get_after_put_example :
    let writer' = node_put 1 "k" (some 7) node_cache in
    let invalidated = map (node_invalidate "k") in
    let replies = read_replies 2 "k" (invalidated (node_cache ∷ []) ++ writer' ∷ invalidated []) in
    ((rs : List (Option (NodeReply ℕ))) → (node_get 2 "k" rs writer').1 ≡ hit (some 7))
    × ((node_get 2 "k" replies (node_invalidate "k" node_cache)).1 ≡ hit (some 7))
get_after_put_example =
    get_after_put 1 2 "k" (some 7) node_cache node_cache (node_cache ∷ []) [] (omega arith)

abbrev lib : Stdlib
lib = record {
  sha256 = λ s. s;
  hmac = λ key message. "5e";
  encode = λ s. [];
  decode = λ bytes. none;
  dumps = λ p. "";
  loads = λ text. none;
}

abbrev peers : List Peer
peers =
    record { node_id = "b"; host = "b"; port = 2 }
    ∷ record { node_id = "c"; host = "c"; port = 3 }
    ∷ []

abbrev digest : Content → String
digest c = "h"

abbrev node : DistributedNode ℕ ℕ
node =
    start_node digest (λ node_id i. if node_id == "b" then 5 else 9) 1
      (new_distributed lib 0 1 default_config peers)

node_shown :
    (cache_stats node.cache ≡ (0, 0, 0))
    × (node.queue.hash_ring.sorted_keys ≡ 5 ∷ 9 ∷ [])
    × (length node.audit.entries ≡ 1)
    × (first_peers 2 peers ≡ record { node_id = "b"; host = "b"; port = 2 } ∷ [])
    × ((begin_acquire 1 (record { resource = none; client_id = none; lock_type = none }) node).1
        ≡ answered (not_leader none))
unfolding program
node_shown = (refl, refl, refl, refl, refl)

abbrev message : NodeMessage ℕ ℕ
message = record { body = cache_read_body "k"; sender_id = "b"; term = 0 }

abbrev request : LockRequest
request = record { resource = some "r"; client_id = some "b"; lock_type = none }

abbrev held : LockDict
held = apply_commands (command "acquire" "a" ∷ []) []

-- `b` is told that it has the lock that `a` holds.
told_acquired :
    ((lock_of "r" (apply_command (acquire_command "r" request) held)).holders ≡ "a" ∷ [])
    × ((finish_acquire digest 5 "r" request true node).1 ≡ lock_status "acquired")
unfolding program
told_acquired = (refl, refl)

-- A message is heard from its sender, whatever becomes of it.
heard_of : lookup "b" (node_rpc 4 message node).0.failure_detector.last_heartbeat ≡ some 4
unfolding program
heard_of = refl
