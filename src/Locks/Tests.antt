-- ===== src/Locks/Tests.antt =====
-- nodes/lock_manager.py: a small table of locks, and the theorems at it.
use tugas3_sinkronisasi_dist.Common.{
  ℕ, ◌+◌, String, Option, none, some, List, [], ◌∷◌, ◌≡◌, refl, string_eq, lookup, insert, pop,
  member, add, discard, All, ne_of_beq, true, ◌<◌,
}
use tugas3_sinkronisasi_dist.Locks.Deadlocks.{
  add_wait, remove_client, update, discard_all, from_first, visit, dfs, search_from, node_count,
  detect_cycles,
}
use tugas3_sinkronisasi_dist.Locks.Events.{LockEvent, committed, expiry_round, lock_step, run_locks}
use tugas3_sinkronisasi_dist.Locks.Promotion.{
  release_hands_over, granted_with, left_behind, add_clients, shared_head, from_exclusive,
}
use tugas3_sinkronisasi_dist.Locks.Cycles.{IsCycle, detect_cycles-IsCycle}
use tugas3_sinkronisasi_dist.Locks.Exclusion.{AllSafe, run_locks-AllSafe}
use tugas3_sinkronisasi_dist.Locks.Fencing.{Fenced, lock_of, run_locks-Fenced}
use tugas3_sinkronisasi_dist.Locks.Requests.{AcquireRequest, acquire_status, finish_acquire}
use tugas3_sinkronisasi_dist.Locks.Requests.Tokens.{answered_tokens_grow}
use tugas3_sinkronisasi_dist.Locks.{
  LockType, shared, exclusive, parse_lock_type, Request, LockState, LockTable, acquire_lock,
  do_acquire, promote_shared, promote, hand_over, do_release, Command, apply_lock_command,
  release_all, expire_resources, expire_leases,
}

program : Unit {0}
unfolding lookup insert pop member add discard add_wait remove_client update discard_all from_first
    visit dfs search_from node_count detect_cycles parse_lock_type acquire_lock do_acquire
    promote_shared promote hand_over do_release apply_lock_command release_all expire_resources
    expire_leases lock_step run_locks add_clients shared_head from_exclusive finish_acquire
program = tt

abbrev empty : LockTable
empty = record {
  locks = [];
  wait_for = [];
  lease_timeout = 30;
  counts = record { acquired = []; contention = 0; released = 0 };
}

abbrev acquire : (resource client : String) → Option String → Command
acquire resource client t = record {
  action = "acquire";
  resource = resource;
  client_id = client;
  lock_type = t;
  lease_timeout = none;
}

abbrev release : (resource client : String) → Command
release resource client = record {
  action = "release";
  resource = resource;
  client_id = client;
  lock_type = none;
  lease_timeout = none;
}

-- `a` holds the lock; `b` asks for it exclusively, `c` and `d` ask to share it.
abbrev queue : List LockEvent
queue =
    committed 1 (acquire "r" "a" none)
    ∷ committed 2 (acquire "r" "b" none)
    ∷ committed 3 (acquire "r" "c" (some "shared"))
    ∷ committed 4 (acquire "r" "d" (some "shared"))
    ∷ []

abbrev queued : LockTable
queued = run_locks queue empty

holders_of : (lock_of "r" queued).holders ≡ "a" ∷ []
unfolding program
holders_of = refl

-- `b` is next, then `c` and `d` together; the lease of the last two runs out.
handed :
    let s = run_locks (committed 5 (release "r" "a") ∷ committed 6 (release "r" "b") ∷ []) queued in
    ((lock_of "r" s).holders ≡ "c" ∷ "d" ∷ [])
    × ((lock_of "r" s).fencing_token ≡ 3)
    × ((lock_of "r" (run_locks (expiry_round 37 ∷ []) s)).holders ≡ [])
unfolding program
handed = (refl, refl, refl)

-- Two clients that hold a lock each and ask for the other's.
abbrev deadlocked : LockTable
deadlocked =
    run_locks
      (committed 1 (acquire "r" "a" none)
        ∷ committed 2 (acquire "q" "b" none)
        ∷ committed 3 (acquire "r" "b" none)
        ∷ committed 4 (acquire "q" "a" none)
        ∷ [])
      empty

detects : detect_cycles deadlocked.wait_for ≡ ("b" ∷ "a" ∷ []) ∷ []
unfolding program
detects = refl

detect_cycles-IsCycle_example :
    All (IsCycle deadlocked.wait_for) (detect_cycles deadlocked.wait_for)
detect_cycles-IsCycle_example = detect_cycles-IsCycle deadlocked.wait_for

empty-AllSafe : AllSafe empty
unfolding lookup
empty-AllSafe r l e = cc

run_locks-AllSafe_example : AllSafe (run_locks queue empty)
run_locks-AllSafe_example = run_locks-AllSafe queue empty empty-AllSafe

run_locks-Fenced_example : Fenced (lock_of "r" empty) (lock_of "r" (run_locks queue empty))
run_locks-Fenced_example = run_locks-Fenced queue empty "r"

abbrev request_of : (client : String) → AcquireRequest
request_of client = record {
  resource = "r";
  client_id = some client;
  lock_type = none;
  timeout = none;
}

-- `b` is told to wait while `a` holds the lock.
told :
    (finish_acquire queued (request_of "a") true ≡ acquire_status "acquired" 1)
    × (finish_acquire queued (request_of "b") true ≡ acquire_status "waiting" 1)
unfolding program
told = (refl, refl)

answered_tokens_grow_example : 1 < 2
answered_tokens_grow_example =
    answered_tokens_grow queued (committed 5 (release "r" "a") ∷ []) "r" (request_of "a")
      (request_of "b") 1 2 (run_locks-AllSafe queue empty empty-AllSafe) (unfold program in refl)
      refl refl (ne_of_beq "a" "b" refl) (unfold program in refl) (unfold program in refl)

abbrev asked : String → LockType → ℕ → Request
asked c t n = record { client_id = c; lock_type = t; timestamp = n }

abbrev rest : List Request
rest = asked "c" shared 3 ∷ asked "d" shared 4 ∷ []

release_hands_over_example :
    (l' : LockState) × (lookup "r" (do_release 5 "r" "a" queued).locks ≡ some l')
    × (l'.holders ≡ add_clients (granted_with (asked "b" exclusive 2) rest) ("b" ∷ []))
    × (l'.waiting ≡ left_behind (asked "b" exclusive 2) rest)
    × (l'.fencing_token ≡ (lock_of "r" queued).fencing_token + 1)
    × (l'.lock_type ≡ some exclusive)
unfolding program
release_hands_over_example =
    release_hands_over 5 "r" "a" queued (lock_of "r" queued) (asked "b" exclusive 2) rest refl refl
      refl

-- Two replicas apply the same commands, and the expiry round of one of them comes before the last
-- command: the lock is held by `b` there, and by `a` on the other.
abbrev same_commands : LockEvent → List LockEvent
same_commands e = committed 0 (acquire "r" "a" none) ∷ committed 1 (acquire "r" "b" none) ∷ e ∷ []

replicas-values :
    ((lock_of "r" (run_locks (same_commands (expiry_round 40)) empty)).holders ≡ "b" ∷ [])
    × ((lock_of "r" (run_locks (same_commands (expiry_round 20)) empty)).holders ≡ "a" ∷ [])
unfolding program
replicas-values = (refl, refl)
