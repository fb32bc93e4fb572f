-- ===== src/Queue.antt =====
-- nodes/queue_node.py: the messages of `QueueNode`. A message is an object that `messages` keeps and
-- the handlers change, so a change is written back under its id. Redis is an outbox: `persisted` is
-- what `_persist_message` has been given, in order. Ids and times are arguments.
pub mod Ring
pub mod Placement
pub mod Turns
pub mod Owners
pub mod Stability
pub mod Events
pub mod Pending
pub mod Recovery
pub mod Restart
pub mod Delivery
pub mod Tests
use tugas3_sinkronisasi_dist.Common.{
  ℕ, ◌+◌, ◌-◌, String, Bool, true, false, ◌&&◌, Option, none, some, List, [], ◌∷◌, ◌++◌, ltb, leb,
  if◌then◌else◌, or_else, string_eq, nat_eq, ◌==◌, length, Dict, values, lookup, insert, take, map,
}
use Ring.{HashRing, new_ring, get_node}

pub data MessageState : Type 0 where
  pending processing completed failed dead_letter : MessageState

abbrev pub state_value : MessageState → String
state_value pending = "pending"
state_value processing = "processing"
state_value completed = "completed"
state_value failed = "failed"
state_value dead_letter = "dead_letter"

-- `MessageState(s)`, `none` where it raises ValueError
unfoldable pub parse_state : String → Option MessageState
parse_state s =
    if s == "pending"
    then some pending
    else if s == "processing"
    then some processing
    else if s == "completed"
    then some completed
    else if s == "failed"
    then some failed
    else if s == "dead_letter"
    then some dead_letter
    else none

pub record QueueMessage (P : Type 0) : Type 0 where
  pub msg_id : String
  pub payload : P
  pub partition_key : String
  pub state : MessageState
  pub retries : ℕ
  pub max_retries : ℕ
  pub created_at : ℕ
  pub assigned_node : Option String
  pub processing_started : Option ℕ

-- The dictionary of a message. Its id is always there. `msg_id` and `payload` are what the constructor
-- makes of them: an empty id is replaced by a new one, a payload that is missing or empty by `{}`.
pub record MessageData (P : Type 0) : Type 0 where
  pub msg_id : String
  pub payload : P
  pub partition_key : Option String
  pub state : Option String
  pub retries : Option ℕ
  pub max_retries : Option ℕ
  pub created_at : Option ℕ
  pub assigned_node : Option String
  pub processing_started : Option ℕ

pub record QueueNode (P : Type 0) : Type 0 where
  pub hash_ring : HashRing
  pub messages : Dict String (QueueMessage P)
  pub pending_queue : List String
  pub processing_timeout : ℕ
  pub replication_factor : ℕ
  pub persisted : List (QueueMessage P)

pub data DequeueReply (P : Type 0) : Type 0 where
  empty : DequeueReply P
  delivered : QueueMessage P → DequeueReply P

abbrev pub is_pending_state : MessageState → Bool
is_pending_state pending = true
is_pending_state _ = false

abbrev pub is_processing_state : MessageState → Bool
is_processing_state processing = true
is_processing_state _ = false

-- `partition_key or self.msg_id`
abbrev pub or_id : (partition_key msg_id : String) → String
or_id partition_key msg_id = if partition_key == "" then msg_id else partition_key

-- `created_at or time.time()`
abbrev pub created : (now created_at : ℕ) → ℕ
created now created_at = if created_at == 0 then now else created_at

-- `msg.processing_started and now - msg.processing_started > self.processing_timeout`
abbrev pub overdue : (now timeout : ℕ) → Option ℕ → Bool
overdue now timeout none = false
overdue now timeout (some t) = if t == 0 then false else ltb timeout (now - t)

module _ {P : Type 0} where
  abbrev pub new_queue : (replicas queue_replication_factor : ℕ) → QueueNode P
  new_queue replicas queue_replication_factor = record {
    hash_ring = new_ring replicas;
    messages = [];
    pending_queue = [];
    processing_timeout = 30;
    replication_factor = queue_replication_factor;
    persisted = [];
  }

  unfoldable pub message_to_dict : QueueMessage P → MessageData P
  message_to_dict m = record {
    msg_id = m.msg_id;
    payload = m.payload;
    partition_key = some m.partition_key;
    state = some (state_value m.state);
    retries = some m.retries;
    max_retries = some m.max_retries;
    created_at = some m.created_at;
    assigned_node = m.assigned_node;
    processing_started = m.processing_started;
  }

  unfoldable pub message_from_dict : (now : ℕ) → MessageData P → Option (QueueMessage P)
  message_from_dict now d = elim (parse_state (or_else d.state "pending")) [
    | none ↦ none
    | some state ↦ some (record {
      msg_id = d.msg_id;
      payload = d.payload;
      partition_key = or_id (or_else d.partition_key d.msg_id) d.msg_id;
      state = state;
      retries = or_else d.retries 0;
      max_retries = or_else d.max_retries 3;
      created_at = created now (or_else d.created_at now);
      assigned_node = d.assigned_node;
      processing_started = d.processing_started;
    })
  ]

  abbrev pub persist : QueueMessage P → QueueNode P → QueueNode P
  persist m n = record n { persisted = n.persisted ++ m ∷ [] }

  -- `self.messages[msg_id] = msg`, and the change of a message that is there
  abbrev pub keep : QueueMessage P → QueueNode P → QueueNode P
  keep m n = record n { messages = insert m.msg_id m n.messages }

  abbrev pub queue_up : String → QueueNode P → QueueNode P
  queue_up msg_id n = record n { pending_queue = n.pending_queue ++ msg_id ∷ [] }

  -- `_replicate_enqueue`, of a message that was read from its dictionary
  unfoldable pub replicate_enqueue : QueueMessage P → QueueNode P → QueueNode P
  replicate_enqueue m n =
      let n' = keep m n in persist m (if is_pending_state m.state then queue_up m.msg_id n' else n')

  -- `_handle_enqueue`: the node after it, and the message that is sent to the first peers.
  unfoldable pub enqueue :
      (hash : String → ℕ) (now : ℕ) (msg_id : String) (payload : P) (partition_key : String)
      → QueueNode P
      → QueueNode P × QueueMessage P
  enqueue hash now msg_id payload partition_key n =
      let key = or_id partition_key msg_id in
      let m : QueueMessage P = record {
        msg_id = msg_id;
        payload = payload;
        partition_key = key;
        state = pending;
        retries = 0;
        max_retries = 3;
        created_at = now;
        assigned_node = get_node hash key n.hash_ring;
        processing_started = none;
      } in
      (persist m (queue_up msg_id (keep m n)), m)

  abbrev pub deliver_found :
      (now : ℕ) → Option (QueueMessage P) → QueueNode P → QueueNode P × DequeueReply P
  deliver_found now none n = (n, empty)
  deliver_found now (some m) n =
      let m' = record m { state = processing; processing_started = some now } in
      (persist m' (keep m' n), delivered m')

  unfoldable pub dequeue : (now : ℕ) → QueueNode P → QueueNode P × DequeueReply P
  dequeue now n = elim n.pending_queue [
    | [] ↦ (n, empty)
    | msg_id ∷ rest ↦
        deliver_found now (lookup msg_id n.messages) (record n { pending_queue = rest })
  ]

  -- `_handle_ack`, and whether the message was found
  unfoldable pub ack : String → QueueNode P → QueueNode P × Bool
  ack msg_id n = elim (lookup msg_id n.messages) [
    | none ↦ (n, false)
    | some m ↦ let m' = record m { state = completed } in (persist m' (keep m' n), true)
  ]

  abbrev pub time_out : QueueMessage P → QueueNode P → QueueNode P
  time_out m n =
      let retries = m.retries + 1 in
      if leb m.max_retries retries
      then (let m' = record m { retries = retries; state = dead_letter } in persist m' (keep m' n))
      else (let m' = record m { retries = retries; state = pending; processing_started = none } in
          persist m' (queue_up m.msg_id (keep m' n)))

  -- What a round of `_processing_timeout_loop` does with one message. The loop waits for Redis between
  -- two messages, and other handlers run there.
  unfoldable pub check_timeout : (now : ℕ) (msg_id : String) → QueueNode P → QueueNode P
  check_timeout now msg_id n = elim (lookup msg_id n.messages) [
    | none ↦ n
    | some m ↦
        if is_processing_state m.state && overdue now n.processing_timeout m.processing_started
        then time_out m n
        else n
  ]

  -- A whole round, where no other handler runs in between.
  unfoldable pub check_timeouts : (now : ℕ) → List String → QueueNode P → QueueNode P
  check_timeouts now [] n = n
  check_timeouts now (id ∷ ids) n = check_timeouts now ids (check_timeout now id n)
