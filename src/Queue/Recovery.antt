-- ===== src/Queue/Recovery.antt =====
-- nodes/queue_node.py: how a `QueueNode` starts: the ring of all nodes, and the messages that Redis
-- kept. The keys that the scan finds are a list, its pages one after the other; a message without a
-- time of its own gets the argument `now`.
use tugas3_sinkronisasi_dist.Common.{
  ℕ, String, none, some, List, [], ◌∷◌, if◌then◌else◌, string_eq, nat_eq,
}
use tugas3_sinkronisasi_dist.Queue.{
  QueueMessage, QueueNode, MessageData, is_pending_state, keep, queue_up, message_from_dict,
}
use tugas3_sinkronisasi_dist.Queue.Ring.{HashRing, add_node}

-- What Redis has under a key: nothing any more, a text that is no message's, or a message's.
pub data Stored (P : Type 0) : Type 0 where
  gone unreadable : Stored P
  stored : MessageData P → Stored P

unfoldable pub add_nodes : (point : String → ℕ → ℕ) → List String → HashRing → HashRing
add_nodes point [] r = r
add_nodes point (x ∷ xs) r = add_nodes point xs (add_node point x r)

module _ {P : Type 0} where
  abbrev pub take_back : QueueMessage P → QueueNode P → QueueNode P
  take_back m n = let n' = keep m n in if is_pending_state m.state then queue_up m.msg_id n' else n'

  -- `_recover_from_redis`. What raises ends it, and leaves the messages that came before.
  unfoldable pub recover : (now : ℕ) → List (Stored P) → QueueNode P → QueueNode P
  recover now [] n = n
  recover now (gone ∷ ds) n = recover now ds n
  recover now (unreadable ∷ ds) n = n
  recover now (stored d ∷ ds) n = elim (message_from_dict now d) [
    | none ↦ n
    | some m ↦ recover now ds (take_back m n)
  ]

  -- `start`
  unfoldable pub start :
      (point : String → ℕ → ℕ) (node_id : String) (peers : List String) (now : ℕ)
      → List (Stored P)
      → QueueNode P
      → QueueNode P
  start point node_id peers now ds n =
      recover now ds (record n { hash_ring = add_nodes point (node_id ∷ peers) n.hash_ring })
