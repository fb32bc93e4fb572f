-- ===== src/Replication.antt =====
-- geo/replicator.py: the entries and the state of `Replicator`. The clock is the argument `now`. An
-- entry that a node keeps is not changed in place again, so entries are values.
pub mod Clocks
pub mod Order
pub mod Merge
pub mod Convergence
pub mod Events
pub mod Causality
pub mod Conflicts
pub mod Tests
use tugas3_sinkronisasi_dist.Common.{
  ℕ, ◌+◌, String, Bool, true, false, not, Option, none, some, List, [], ◌∷◌, ◌++◌, ltb,
  if◌then◌else◌, or_else, string_eq, ◌==◌, nat_eq, Dict, lookup, insert,
}
use Clocks.{VectorClock, increment, merge, is_concurrent, dominates}

pub data ReplicationStatus : Type 0 where
  pending replicated conflict : ReplicationStatus

abbrev pub status_value : ReplicationStatus → String
status_value pending = "pending"
status_value replicated = "replicated"
status_value conflict = "conflict"

-- `ReplicationStatus(s)`, `none` where it raises ValueError
unfoldable pub parse_status : String → Option ReplicationStatus
parse_status s =
    if s == "pending"
    then some pending
    else if s == "replicated"
    then some replicated
    else if s == "conflict"
    then some conflict
    else none

pub record ReplicatedEntry (V : Type 0) : Type 0 where
  pub key : String
  pub value : V
  pub vector_clock : VectorClock
  pub origin_node : String
  pub timestamp : ℕ
  pub status : ReplicationStatus

-- The dictionary of an entry. The key and the value are always there.
pub record EntryData (V : Type 0) : Type 0 where
  pub key : String
  pub value : V
  pub vector_clock : Option VectorClock
  pub origin_node : Option String
  pub timestamp : Option ℕ
  pub status : Option String

pub record Replicator (V : Type 0) : Type 0 where
  pub node_id : String
  pub data_store : Dict String (ReplicatedEntry V)
  pub vector_clock : VectorClock
  pub pending_replications : List (ReplicatedEntry V)

-- `timestamp or time.time()`
abbrev pub stamp : (now timestamp : ℕ) → ℕ
stamp now timestamp = if timestamp == 0 then now else timestamp

abbrev pub is_pending : ReplicationStatus → Bool
is_pending pending = true
is_pending _ = false

module _ {V : Type 0} where
  unfoldable pub to_dict : ReplicatedEntry V → EntryData V
  to_dict e = record {
    key = e.key;
    value = e.value;
    vector_clock = some e.vector_clock;
    origin_node = some e.origin_node;
    timestamp = some e.timestamp;
    status = some (status_value e.status);
  }

  unfoldable pub from_dict : (now : ℕ) → EntryData V → Option (ReplicatedEntry V)
  from_dict now d = elim (parse_status (or_else d.status "pending")) [
    | none ↦ none
    | some status ↦ some (record {
      key = d.key;
      value = d.value;
      vector_clock = or_else d.vector_clock [];
      origin_node = or_else d.origin_node "";
      timestamp = stamp now (or_else d.timestamp now);
      status = status;
    })
  ]

  abbrev pub new_replicator : (node_id : String) → Replicator V
  new_replicator node_id = record {
    node_id = node_id;
    data_store = [];
    vector_clock = [];
    pending_replications = [];
  }

  -- The entry is also what `_replicate_entry` sends to every peer.
  unfoldable pub write :
      (now : ℕ) (key : String) (value : V) → Replicator V → Replicator V × ReplicatedEntry V
  write now key value r =
      let clock = increment r.node_id r.vector_clock in
      let entry : ReplicatedEntry V = record {
        key = key;
        value = value;
        vector_clock = clock;
        origin_node = r.node_id;
        timestamp = now;
        status = pending;
      } in
      (
        record r {
          vector_clock = clock;
          data_store = insert key entry r.data_store;
          pending_replications = r.pending_replications ++ entry ∷ [];
        },
        entry,
      )

  -- What `handle_replicate` makes of an entry and the one that is there: the entry with its new
  -- status, and whether it is stored.
  unfoldable pub resolve_entry :
      ReplicatedEntry V → Option (ReplicatedEntry V) → ReplicatedEntry V × Bool
  resolve_entry entry none = (record entry { status = replicated }, true)
  resolve_entry entry (some existing) =
      if is_concurrent entry.vector_clock existing.vector_clock
      then (record entry { status = conflict }, ltb existing.timestamp entry.timestamp)
      else if dominates entry.vector_clock existing.vector_clock
      then (record entry { status = replicated }, true)
      else (entry, false)

  unfoldable pub receive : ReplicatedEntry V → Replicator V → Replicator V × ReplicationStatus
  receive entry r =
      let (entry', stored) = resolve_entry entry (lookup entry.key r.data_store) in
      (
        record r {
          data_store = if stored then insert entry.key entry' r.data_store else r.data_store;
          vector_clock = merge r.vector_clock entry.vector_clock;
        },
        entry'.status,
      )

  -- The reply is the status and the key. Data with an unknown status raises ValueError.
  unfoldable pub handle_replicate :
      (now : ℕ) → EntryData V → Replicator V → Option (Replicator V × (String × String))
  handle_replicate now d r = elim (from_dict now d) [
    | none ↦ none
    | some entry ↦ let (r', status) = receive entry r in some (r', (status_value status, entry.key))
  ]

  unfoldable pub keep_pending : List (ReplicatedEntry V) → List (ReplicatedEntry V)
  keep_pending [] = []
  keep_pending (e ∷ es) =
      let rest = keep_pending es in if is_pending e.status then e ∷ rest else rest

  -- One round of `_replication_loop`.
  unfoldable pub clear_completed : Replicator V → Replicator V
  clear_completed r = record r { pending_replications = keep_pending r.pending_replications }
