-- ===== src/Locks/Requests.antt =====
-- nodes/lock_manager.py: the handlers of the requests to `LockManagerNode`. A handler that changes a
-- lock is split at its wait for `raft.propose`, whose result is the argument `ok`. A resource and a
-- client are texts; a key that is missing in a request is `none`.
pub mod Tokens
use tugas3_sinkronisasi_dist.Common.{
  ℕ, String, Bool, Option, none, some, List, [], if◌then◌else◌, or_else, string_eq, lookup, member,
  Dict, map_values, map, ◌⊎◌, inl, inr,
}
use tugas3_sinkronisasi_dist.Locks.{
  Command, LockState, LockTable, Request, LockType, type_name, apply_lock_command,
}
use tugas3_sinkronisasi_dist.Locks.Deadlocks.{WaitFor, detect_cycles}
use tugas3_sinkronisasi_dist.Raft.{Raft, Peer, Message, is_leader}
use tugas3_sinkronisasi_dist.Raft.Handlers.{propose}

pub record LockManager : Type 0 where
  pub raft : Raft Command
  pub table : LockTable

pub record AcquireRequest : Type 0 where
  pub resource : String
  pub client_id : Option String
  pub lock_type : Option String
  pub timeout : Option ℕ

pub record ReleaseRequest : Type 0 where
  pub resource : String
  pub client_id : Option String

-- 307 with the leader, 200 with a status and, for an acquire, the fencing token, and 500
pub data ManagerAnswer : Type 0 where
  not_leader : (leader_id : Option String) → ManagerAnswer
  acquire_status : (status : String) (fencing_token : ℕ) → ManagerAnswer
  release_status : (status : String) → ManagerAnswer
  commit_failed : ManagerAnswer

-- `data.get("client_id", "anonymous")`
abbrev pub client_named : Option String → String
client_named client_id = or_else client_id "anonymous"

abbrev pub acquire_of : AcquireRequest → (lease_timeout : ℕ) → Command
acquire_of req lease_timeout = record {
  action = "acquire";
  resource = req.resource;
  client_id = client_named req.client_id;
  lock_type = some (or_else req.lock_type "exclusive");
  lease_timeout = some (or_else req.timeout lease_timeout);
}

abbrev pub release_of : ReleaseRequest → Command
release_of req = record {
  action = "release";
  resource = req.resource;
  client_id = client_named req.client_id;
  lock_type = none;
  lease_timeout = none;
}

-- An answer at once, or the messages of a proposal that is waited for.
abbrev pub ManagerStep : Type 0
ManagerStep = ManagerAnswer ⊎ List (Peer × Message Command)

-- On a leader `raft.propose` proposes.
unfoldable pub propose_to : (ticket : ℕ) → Command → LockManager → LockManager × ManagerStep
propose_to ticket c m = elim (propose ticket c m.raft) [
  | none ↦ (m, inr [])
  | some (raft', sent) ↦ (record m { raft = raft' }, inr sent)
]

unfoldable pub begin_acquire :
    (ticket : ℕ) → AcquireRequest → LockManager → LockManager × ManagerStep
begin_acquire ticket req m =
    if is_leader m.raft
    then propose_to ticket (acquire_of req m.table.lease_timeout) m
    else (m, inl (not_leader m.raft.leader_id))

unfoldable pub begin_release :
    (ticket : ℕ) → ReleaseRequest → LockManager → LockManager × ManagerStep
begin_release ticket req m =
    if is_leader m.raft
    then propose_to ticket (release_of req) m
    else (m, inl (not_leader m.raft.leader_id))

-- `_handle_acquire` after the wait, on the locks that are there then.
unfoldable pub finish_acquire : LockTable → AcquireRequest → (ok : Bool) → ManagerAnswer
finish_acquire s req ok =
    if ok
    then elim (lookup req.resource s.locks) [
      | none ↦ acquire_status "waiting" 0
      | some lock ↦
          acquire_status
            (if member (client_named req.client_id) lock.holders then "acquired" else "waiting")
            lock.fencing_token
    ]
    else commit_failed

abbrev pub finish_release : (ok : Bool) → ManagerAnswer
finish_release ok = release_status (if ok then "released" else "failed")

-- The dictionaries of a request that waits and of a lock
pub record RequestData : Type 0 where
  pub client_id : String
  pub lock_type : String
  pub timestamp : ℕ

pub record LockData : Type 0 where
  pub resource : String
  pub lock_type : Option String
  pub holders : List String
  pub waiting : List RequestData
  pub fencing_token : ℕ
  pub lease_expiry : ℕ

abbrev pub request_data : Request → RequestData
request_data q = record {
  client_id = q.client_id;
  lock_type = type_name q.lock_type;
  timestamp = q.timestamp;
}

abbrev pub type_text : Option LockType → Option String
type_text none = none
type_text (some t) = some (type_name t)

abbrev pub lock_data : LockState → LockData
lock_data l = record {
  resource = l.resource;
  lock_type = type_text l.lock_type;
  holders = l.holders;
  waiting = map request_data l.waiting;
  fencing_token = l.fencing_token;
  lease_expiry = l.lease_expiry;
}

abbrev pub handle_lock_status : LockTable → Dict String LockData
handle_lock_status s = map (λ e. (e.0, lock_data e.1)) s.locks

abbrev pub handle_deadlocks : LockTable → List (List String) × WaitFor
handle_deadlocks s = (detect_cycles s.wait_for, s.wait_for)
