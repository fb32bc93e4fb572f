-- ===== src/Unified/LockCommands.antt =====
-- main.py: the lock table of `DistributedNode` and `_apply_lock_command`, which has neither leases nor
-- a wait-for graph, and whose release grants nothing to the clients that wait.
use tugas3_sinkronisasi_dist.Common.{
  ℕ, ◌+◌, String, Option, none, some, List, [], ◌∷◌, ◌++◌, if◌then◌else◌, or_else, ◌==◌, string_eq,
  Dict, lookup, insert, add, discard,
}
use tugas3_sinkronisasi_dist.Locks.{LockType, parse_lock_type, type_name, both_shared, Command}

-- an entry of `waiting`
pub record Waiter : Type 0 where
  pub client_id : String
  pub lock_type : String

-- The fields of a LockState that the node uses.
pub record NodeLock : Type 0 where
  pub lock_type : Option LockType
  pub holders : List String
  pub waiting : List Waiter
  pub fencing_token : ℕ

abbrev pub LockDict : Type 0
LockDict = Dict String NodeLock

abbrev pub new_node_lock : NodeLock
new_node_lock = record { lock_type = none; holders = []; waiting = []; fencing_token = 0 }

-- The three branches of an acquire.
unfoldable pub take_lock : (client_id : String) (lt : LockType) → NodeLock → NodeLock
take_lock client_id lt lock = elim lock.holders [
  | [] ↦ record lock {
    lock_type = some lt;
    holders = client_id ∷ [];
    fencing_token = lock.fencing_token + 1;
  }
  | h ∷ hs ↦
      if both_shared lt lock.lock_type
      then record lock { holders = add client_id (h ∷ hs) }
      else record lock {
        waiting = lock.waiting ++ record { client_id = client_id; lock_type = type_name lt } ∷ [];
      }
]

-- A lock is put into the table before its type is read; an unknown type then raises ValueError, which
-- the caller logs.
abbrev pub apply_acquire : Command → LockDict → LockDict
apply_acquire c locks =
    let lock = or_else (lookup c.resource locks) new_node_lock in
    elim (parse_lock_type (or_else c.lock_type "exclusive")) [
      | none ↦ insert c.resource lock locks
      | some lt ↦ insert c.resource (take_lock c.client_id lt lock) locks
    ]

abbrev pub apply_release : Command → LockDict → LockDict
apply_release c locks = elim (lookup c.resource locks) [
  | none ↦ locks
  | some lock ↦ insert c.resource (record lock { holders = discard c.client_id lock.holders }) locks
]

unfoldable pub apply_command : Command → LockDict → LockDict
apply_command c locks =
    if c.action == "acquire"
    then apply_acquire c locks
    else if c.action == "release"
    then apply_release c locks
    else locks

-- The committed commands, in log order.
unfoldable pub apply_commands : List Command → LockDict → LockDict
apply_commands [] locks = locks
apply_commands (c ∷ cs) locks = apply_commands cs (apply_command c locks)

abbrev pub lock_of : String → LockDict → NodeLock
lock_of resource locks = or_else (lookup resource locks) new_node_lock
