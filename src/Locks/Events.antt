-- ===== src/Locks/Events.antt =====
-- nodes/lock_manager.py: everything that changes the lock table, as events: a committed command, and
-- a round of the lease expiry loop. What `_do_acquire` and `_do_release` keep, every run keeps.
use tugas3_sinkronisasi_dist.Common.{
  ℕ, String, Option, none, some, List, [], ◌∷◌, Bool-cases, inl, inr, ◌==◌, string_eq, lookup, keys,
  or_else,
}
use tugas3_sinkronisasi_dist.Locks.{
  LockType, LockTable, LockState, do_acquire, do_release, Command, parse_lock_type, acquire_parsed,
  apply_lock_command, release_all, expired, expire_found, expire_resources, expire_leases,
}

pub data LockEvent : Type 0 where
  committed : (now : ℕ) → Command → LockEvent
  expiry_round : (now : ℕ) → LockEvent

unfoldable pub lock_step : LockEvent → LockTable → LockTable
lock_step (committed now c) s = apply_lock_command now c s
lock_step (expiry_round now) s = expire_leases now s

unfoldable pub run_locks : List LockEvent → LockTable → LockTable
run_locks [] s = s
run_locks (e ∷ es) s = run_locks es (lock_step e s)

module _ {P : LockTable → Type 0}
    (acquire_keeps : (now : ℕ) (r c : String) (t : LockType) (lease : ℕ) (s : LockTable)
      → P s
      → P (do_acquire now r c t lease s))
    (release_keeps : (now : ℕ) (r c : String) (s : LockTable)
      → P s
      → P (do_release now r c s)) where
  acquire_parsed_keeps :
      (now : ℕ) (c : Command) (o : Option LockType) (s : LockTable)
      → P s
      → P (acquire_parsed now c o s)
  acquire_parsed_keeps now c none s p = p
  acquire_parsed_keeps now c (some t) s p =
      acquire_keeps now c.resource c.client_id t (or_else c.lease_timeout s.lease_timeout) s p

  pub command_keeps : (now : ℕ) (c : Command) (s : LockTable) → P s → P (apply_lock_command now c s)
  unfolding apply_lock_command
  command_keeps now c s p = elim (Bool-cases (c.action == "acquire")) [
    | inl acq ↦
        rw acq (acquire_parsed_keeps now c (parse_lock_type (or_else c.lock_type "exclusive")) s p)
    | inr other ↦ elim (Bool-cases (c.action == "release")) [
      | inl rel ↦ rw (other, rel) (release_keeps now c.resource c.client_id s p)
      | inr unknown ↦ rw (other, unknown) p
    ]
  ]

  release_all_keeps :
      (now : ℕ) (r : String) (hs : List String) (s : LockTable) → P s → P (release_all now r hs s)
  unfolding release_all
  release_all_keeps now r [] s p = p
  release_all_keeps now r (h ∷ hs) s p =
      release_all_keeps now r hs (do_release now r h s) (release_keeps now r h s p)

  expire_found_keeps :
      (now : ℕ) (r : String) (o : Option LockState) (s : LockTable)
      → P s
      → P (expire_found now r o s)
  expire_found_keeps now r none s p = p
  expire_found_keeps now r (some l) s p = elim (Bool-cases (expired now l)) [
    | inl late ↦ rw late (release_all_keeps now r l.holders s p)
    | inr in_time ↦ rw in_time p
  ]

  expire_resources_keeps :
      (now : ℕ) (rs : List String) (s : LockTable) → P s → P (expire_resources now rs s)
  unfolding expire_resources
  expire_resources_keeps now [] s p = p
  expire_resources_keeps now (r ∷ rs) s p =
      expire_resources_keeps now rs (expire_found now r (lookup r s.locks) s)
        (expire_found_keeps now r (lookup r s.locks) s p)

  pub run_locks_keeps : (es : List LockEvent) (s : LockTable) → P s → P (run_locks es s)
  unfolding run_locks lock_step expire_leases
  run_locks_keeps [] s p = p
  run_locks_keeps (committed now c ∷ es) s p =
      run_locks_keeps es (apply_lock_command now c s) (command_keeps now c s p)
  run_locks_keeps (expiry_round now ∷ es) s p =
      run_locks_keeps es (expire_leases now s) (expire_resources_keeps now (keys s.locks) s p)
