-- ===== src/Locks.antt =====
-- nodes/lock_manager.py: the lock table of `LockManagerNode` and the committed commands that change
-- it. `_do_acquire` and `_do_release` take the clock's value as an argument.
pub mod Deadlocks
pub mod Events
pub mod Promotion
pub mod Edges
pub mod Cycles
pub mod Requests
pub mod Exclusion
pub mod Fencing
mod Tests
use tugas3_sinkronisasi_dist.Common.{
  ℕ, zero, suc, ◌+◌, max, String, Bool, true, false, ◌&&◌, Option, none, some, List, [], ◌∷◌, ◌++◌,
  ltb, if◌then◌else◌, or_else, ◌==◌, string_eq, Dict, keys, lookup, insert, pop, member, add,
  discard,
}
use Deadlocks.{WaitFor, add_wait, remove_client}

pub data LockType : Type 0 where
  shared exclusive : LockType

-- `LockType(text)`, with `none` for the ValueError
unfoldable pub parse_lock_type : String → Option LockType
parse_lock_type s =
    if s == "shared" then some shared else if s == "exclusive" then some exclusive else none

abbrev pub is_shared : LockType → Bool
is_shared shared = true
is_shared exclusive = false

-- an entry of `waiting`
pub record Request : Type 0 where
  pub client_id : String
  pub lock_type : LockType
  pub timestamp : ℕ

pub record LockState : Type 0 where
  pub resource : String
  pub lock_type : Option LockType
  pub holders : List String
  pub waiting : List Request
  pub fencing_token : ℕ
  pub lease_expiry : ℕ

abbrev pub new_lock : String → LockState
new_lock resource = record {
  resource = resource;
  lock_type = none;
  holders = [];
  waiting = [];
  fencing_token = 0;
  lease_expiry = 0;
}

-- The counters that the lock manager keeps in its metrics.
pub record Counts : Type 0 where
  pub acquired : Dict String ℕ
  pub contention : ℕ
  pub released : ℕ

pub record LockTable : Type 0 where
  pub locks : Dict String LockState
  pub wait_for : WaitFor
  pub lease_timeout : ℕ
  pub counts : Counts

abbrev pub type_name : LockType → String
type_name shared = "shared"
type_name exclusive = "exclusive"

abbrev pub count_acquired : LockType → Counts → Counts
count_acquired t c =
    let k = type_name t in
    record c { acquired = insert k (or_else (lookup k c.acquired) 0 + 1) c.acquired }

abbrev pub both_shared : LockType → Option LockType → Bool
both_shared t none = false
both_shared t (some u) = is_shared t && is_shared u

-- The three branches of `_do_acquire`, on the lock and the wait-for graph.
unfoldable pub acquire_lock :
    (now lease : ℕ) (client : String) (t : LockType) → LockState → LockState
acquire_lock now lease client t lock = elim lock.holders [
  | [] ↦ record lock {
    lock_type = some t;
    holders = client ∷ [];
    fencing_token = lock.fencing_token + 1;
    lease_expiry = now + lease;
  }
  | h ∷ hs ↦
      if both_shared t lock.lock_type
      then record lock {
        holders = add client (h ∷ hs);
        lease_expiry = max lock.lease_expiry (now + lease);
      }
      else record lock {
        waiting =
            lock.waiting ++ record { client_id = client; lock_type = t; timestamp = now } ∷ [];
      }
]

-- The request is granted at once.
abbrev pub grants : LockType → LockState → Bool
grants t lock = elim lock.holders [ [] ↦ true | h ∷ hs ↦ both_shared t lock.lock_type ]

unfoldable pub do_acquire :
    (now : ℕ) (resource client : String) (t : LockType) (lease : ℕ) → LockTable → LockTable
do_acquire now resource client t lease s =
    let lock = or_else (lookup resource s.locks) (new_lock resource) in
    let granted = grants t lock in
    record s {
      locks = insert resource (acquire_lock now lease client t lock) s.locks;
      wait_for =
          if granted
          then remove_client client s.wait_for
          else add_wait client lock.holders s.wait_for;
      counts =
          if granted
          then count_acquired t s.counts
          else record s.counts { contention = s.counts.contention + 1 };
    }

-- The `while` of `_do_release`: shared requests at the head of the queue are granted together.
unfoldable pub promote_shared : List Request → LockState → WaitFor → LockState × WaitFor
promote_shared [] lock w = (record lock { waiting = [] }, w)
promote_shared (q ∷ qs) lock w =
    let next =
      promote_shared qs (record lock { holders = add q.client_id lock.holders })
        (remove_client q.client_id w) in
    if is_shared q.lock_type then next else (record lock { waiting = q ∷ qs }, w)

-- The end of `_do_release`, where nobody holds the lock and `q` is first in the queue.
unfoldable pub promote :
    (now lease : ℕ) → Request → List Request → LockState → WaitFor → LockState × WaitFor
promote now lease q qs lock w =
    let lock' = record lock {
      lock_type = some q.lock_type;
      holders = q.client_id ∷ [];
      waiting = qs;
      fencing_token = lock.fencing_token + 1;
      lease_expiry = now + lease;
    } in
    let w' = remove_client q.client_id w in
    if is_shared q.lock_type then promote_shared qs lock' w' else (lock', w')

unfoldable pub hand_over : (now lease : ℕ) → LockState → WaitFor → LockState × WaitFor
hand_over now lease lock w = elim lock.holders [
  | [] ↦ elim lock.waiting [ [] ↦ (lock, w) | q ∷ qs ↦ promote now lease q qs lock w ]
  | h ∷ hs ↦ (lock, w)
]

abbrev pub release_lock :
    (now lease : ℕ) (client : String) → LockState → WaitFor → LockState × WaitFor
release_lock now lease client lock w =
    hand_over now lease (record lock { holders = discard client lock.holders })
      (remove_client client w)

abbrev pub release_found :
    (now : ℕ) (resource client : String) → Option LockState → LockTable → LockTable
release_found now resource client none s = s
release_found now resource client (some lock) s =
    let (lock', w') = release_lock now s.lease_timeout client lock s.wait_for in
    record s {
      locks = insert resource lock' s.locks;
      wait_for = w';
      counts = record s.counts { released = s.counts.released + 1 };
    }

unfoldable pub do_release : (now : ℕ) (resource client : String) → LockTable → LockTable
do_release now resource client s = release_found now resource client (lookup resource s.locks) s

-- A committed command, as the dictionary that `propose` was given.
pub record Command : Type 0 where
  pub action : String
  pub resource : String
  pub client_id : String
  pub lock_type : Option String
  pub lease_timeout : Option ℕ

abbrev pub acquire_parsed : ℕ → Command → Option LockType → LockTable → LockTable
acquire_parsed now c none s = s
acquire_parsed now c (some t) s =
    do_acquire now c.resource c.client_id t (or_else c.lease_timeout s.lease_timeout) s

-- `_apply_lock_command`. An unknown lock type raises ValueError before anything is changed; the
-- caller, `_apply_committed`, logs it and goes on.
unfoldable pub apply_lock_command : ℕ → Command → LockTable → LockTable
apply_lock_command now c s =
    if c.action == "acquire"
    then acquire_parsed now c (parse_lock_type (or_else c.lock_type "exclusive")) s
    else if c.action == "release"
    then do_release now c.resource c.client_id s
    else s

unfoldable pub release_all : (now : ℕ) (resource : String) → List String → LockTable → LockTable
release_all now resource [] s = s
release_all now resource (h ∷ hs) s = release_all now resource hs (do_release now resource h s)

abbrev pub expired : ℕ → LockState → Bool
expired now lock = ltb 0 lock.lease_expiry && ltb lock.lease_expiry now

abbrev pub expire_found : (now : ℕ) (resource : String) → Option LockState → LockTable → LockTable
expire_found now resource none s = s
expire_found now resource (some lock) s =
    if expired now lock then release_all now resource lock.holders s else s

-- One round of `_lease_expiry_loop`, over the resources that are there when it starts.
unfoldable pub expire_resources : ℕ → List String → LockTable → LockTable
expire_resources now [] s = s
expire_resources now (r ∷ rs) s = expire_resources now rs (expire_found now r (lookup r s.locks) s)

unfoldable pub expire_leases : ℕ → LockTable → LockTable
expire_leases now s = expire_resources now (keys s.locks) s
