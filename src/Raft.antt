-- ===== src/Raft.antt =====
-- consensus/raft.py: the state of `RaftConsensus` as a record and its methods as functions on it,
-- one for each stretch between two awaits that can suspend. The clock is the argument `now`; what a
-- method sends is part of its result. The handlers and the proofs are in the modules below.
pub mod Handlers
pub mod Terms
pub mod Events
pub mod Votes
pub mod Apply
pub mod Append
pub mod Positions
pub mod Safety
pub mod Election
mod Tests
use tugas3_sinkronisasi_dist.Common.{
  ℕ, zero, suc, ◌+◌, ◌-◌, ◌/◌, min, max, String, Bool, true, false, ◌&&◌, ◌||◌, Option, none, some,
  List, [], ◌∷◌, ◌++◌, ltb, leb, if◌then◌else◌, or_else, ◌==◌, nat_eq, string_eq, none_or_eq,
  length, get_elem?, get_last?, take, drop, Dict, lookup, insert, pop,
}

pub data RaftState : Type 0 where
  follower candidate leader : RaftState

pub record LogEntry (C : Type 0) : Type 0 where
  pub term : ℕ
  pub index : ℕ
  pub command : C

pub record Peer : Type 0 where
  pub node_id : String
  pub host : String
  pub port : ℕ

-- The data of a message, by its type. `none` is a key that is missing.
pub data Body (C : Type 0) : Type 0 where
  vote_request : (last_log_index last_log_term : Option ℕ) → Body C
  vote_response : Body C
  append_entries :
      (prev_log_index prev_log_term : Option ℕ) (entries : List (LogEntry C))
      → (leader_commit : Option ℕ) → Body C
  append_entries_response : Body C
  other : Body C

pub record Message (C : Type 0) : Type 0 where
  pub body : Body C
  pub sender_id : String
  pub term : ℕ

pub data Reply : Type 0 where
  vote : (term : ℕ) (vote_granted : Bool) (voter_id : String) → Reply
  appended : (term : ℕ) (success : Bool) (node_id : String) → Reply
  status_ok : Reply
  unhandled : Reply

-- An asyncio task that is held in a field, and a future by the ticket of its `propose`.
pub data Task : Type 0 where
  running cancelled : Task

pub data Future : Type 0 where
  waiting resolved dropped : Future

-- `applied` lists the entries that the commit callbacks were given, in order.
pub record Raft (C : Type 0) : Type 0 where
  pub node_id : String
  pub peers : List Peer
  pub current_term : ℕ
  pub voted_for : Option String
  pub log : List (LogEntry C)
  pub state : RaftState
  pub leader_id : Option String
  pub commit_index : ℕ
  pub last_applied : ℕ
  pub next_index : Dict String ℕ
  pub match_index : Dict String ℕ
  pub last_heartbeat : ℕ
  pub heartbeat_task : Option Task
  pub pending_requests : Dict ℕ ℕ
  pub futures : Dict ℕ Future
  pub applied : List (LogEntry C)

abbrev pub is_leader_state : RaftState → Bool
is_leader_state leader = true
is_leader_state _ = false

abbrev pub is_candidate_state : RaftState → Bool
is_candidate_state candidate = true
is_candidate_state _ = false

abbrev pub cancel : Option Task → Option Task
cancel none = none
cancel (some t) = some cancelled

-- The end of `_apply_committed`'s round: the future of the index is taken out and resolved, unless
-- it is done.
abbrev pub set_result : Option ℕ → Dict ℕ Future → Dict ℕ Future
set_result none fs = fs
set_result (some ticket) fs = elim (lookup ticket fs) [
  | some waiting ↦ insert ticket resolved fs
  | _ ↦ fs
]

-- The number of peers whose `match_index` has reached `n`.
unfoldable pub count_matching : ℕ → Dict String ℕ → List Peer → ℕ
count_matching n match_index [] = 0
count_matching n match_index (p ∷ ps) =
    let rest = count_matching n match_index ps in
    if leb n (or_else (lookup p.node_id match_index) 0) then rest + 1 else rest

module _ {C : Type 0} where
  unfoldable pub init : String → List Peer → ℕ → Raft C
  init node_id peers now = record {
    node_id = node_id;
    peers = peers;
    current_term = 0;
    voted_for = none;
    log = [];
    state = follower;
    leader_id = none;
    commit_index = 0;
    last_applied = 0;
    next_index = [];
    match_index = [];
    last_heartbeat = now;
    heartbeat_task = none;
    pending_requests = [];
    futures = [];
    applied = [];
  }

  abbrev pub is_leader : Raft C → Bool
  is_leader r = is_leader_state r.state

  abbrev pub quorum_size : Raft C → ℕ
  quorum_size r = (length r.peers + 1) / 2 + 1

  -- `self.log[-1].term if self.log else 0`
  unfoldable pub last_term : List (LogEntry C) → ℕ
  last_term log = elim (get_last? log) [ none ↦ 0 | some e ↦ e.term ]

  -- `self.log[i - 1].term` at an index that is in range, and 0 elsewhere
  unfoldable pub term_at : List (LogEntry C) → ℕ → ℕ
  term_at log i = elim (get_elem? log (i - 1)) [ none ↦ 0 | some e ↦ e.term ]

  abbrev pub resolve : ℕ → Raft C → Raft C
  resolve index r = record r {
    pending_requests = pop index r.pending_requests;
    futures = set_result (lookup index r.pending_requests) r.futures;
  }

  abbrev pub deliver : Option (LogEntry C) → Raft C → Raft C
  deliver none r = r
  deliver (some entry) r = resolve entry.index (record r { applied = r.applied ++ entry ∷ [] })

  -- The `while` of `_apply_committed`, one unit of fuel for each round. A round that finds no entry
  -- raises IndexError in the source; `Apply.apply_committed_lem` shows that none does.
  unfoldable pub apply_rounds : ℕ → Raft C → Raft C
  apply_rounds zero r = r
  apply_rounds (suc fuel) r =
      let rest = apply_rounds fuel (
        deliver (get_elem? r.log r.last_applied)
          (record r { last_applied = r.last_applied + 1 })) in
      if ltb r.last_applied r.commit_index then rest else r

  unfoldable pub apply_committed : Raft C → Raft C
  apply_committed r = apply_rounds (r.commit_index - r.last_applied) r

  -- One round of the `for n` of `_try_advance_commit`.
  unfoldable pub advance_round : ℕ → Raft C → Raft C
  advance_round n r =
      if term_at r.log n == r.current_term
      then (if leb (quorum_size r) (1 + count_matching n r.match_index r.peers)
          then apply_committed (record r { commit_index = n })
          else r)
      else r

  -- `k` rounds from `n` on: the range is fixed when the loop starts.
  unfoldable pub advance_rounds : ℕ → ℕ → Raft C → Raft C
  advance_rounds zero n r = r
  advance_rounds (suc k) n r = advance_rounds k (n + 1) (advance_round n r)

  unfoldable pub try_advance_commit : Raft C → Raft C
  try_advance_commit r =
      if is_leader r
      then advance_rounds (length r.log - r.commit_index) (r.commit_index + 1) r
      else r
