-- ===== src/Locks/Fencing.antt =====
-- nodes/lock_manager.py: fencing tokens. A token never falls, and an exclusive lock has no new owner
-- under an old token.
use tugas3_sinkronisasi_dist.Common.{
  ℕ, ◌≤◌, ◌<◌, String, true, some, List, ◌≡◌, refl, arith, or_else, ◌==◌, string_eq, lookup, member,
  discard, lookup-insert, Bool-cases, Option-cases, inl, inr, beq_eq, subst, member-discard, sym,
  ◌∙◌, subst₂, beq_refl,
}
use tugas3_sinkronisasi_dist.Locks.Deadlocks.{WaitFor, remove_client}
use tugas3_sinkronisasi_dist.Locks.Promotion.{hand_over_cases, promote_lem}
use tugas3_sinkronisasi_dist.Locks.Events.{LockEvent, run_locks, run_locks_keeps}
use tugas3_sinkronisasi_dist.Locks.{
  LockType, exclusive, LockState, new_lock, LockTable, acquire_lock, do_acquire, promote,
  release_lock, do_release,
}

-- From `l` to `l'` the token has not fallen, and under the same token the lock has the same type and,
-- if it is exclusive, no new holder.
pub record Fenced (l l' : LockState) : Type 0 where
  pub grows : l.fencing_token ≤ l'.fencing_token
  pub kind : l'.fencing_token ≡ l.fencing_token → l'.lock_type ≡ l.lock_type
  pub owners :
      l'.fencing_token ≡ l.fencing_token
      → l'.lock_type ≡ some exclusive
      → (c : String) → member c l'.holders ≡ true
      → member c l.holders ≡ true

Fenced-refl : (l : LockState) → Fenced l l
Fenced-refl l = record { grows = omega arith; kind = λ e. refl; owners = λ e t c h. h }

Fenced-trans : {l m n : LockState} → Fenced l m → Fenced m n → Fenced l n
Fenced-trans a b = record {
  grows = omega (arith, a.grows, b.grows);
  kind = λ e. b.kind (omega (arith, a.grows, b.grows)) ∙ a.kind (omega (arith, a.grows, b.grows));
  owners = λ e t c h.
      a.owners (omega (arith, a.grows, b.grows))
        (sym (b.kind (omega (arith, a.grows, b.grows))) ∙ t) c
        (b.owners (omega (arith, a.grows, b.grows)) t c h);
}

-- A step that raises the token is fenced.
Fenced-raise : (l l' : LockState) → l.fencing_token < l'.fencing_token → Fenced l l'
Fenced-raise l l' h = record {
  grows = omega arith;
  kind = λ e. absurd (omega arith);
  owners = λ e. absurd (omega arith);
}

acquire_lock-holders :
    (now lease : ℕ) (client : String) (t : LockType) (l : LockState)
    → (acquire_lock now lease client t l).fencing_token ≡ l.fencing_token
    → (acquire_lock now lease client t l).lock_type ≡ some exclusive
    → (acquire_lock now lease client t l).holders ≡ l.holders
unfolding acquire_lock
acquire_lock-holders now lease client t l e x = ground arith

acquire_lock-Fenced :
    (now lease : ℕ) (client : String) (t : LockType) (l : LockState)
    → Fenced l (acquire_lock now lease client t l)
unfolding acquire_lock
acquire_lock-Fenced now lease client t l = record {
  grows = ground arith;
  kind = ground arith;
  owners = λ e x c h. rw (acquire_lock-holders now lease client t l e x) at h;
}

release_lock-Fenced :
    (now lease : ℕ) (client : String) (l : LockState) (w : WaitFor)
    → Fenced l (release_lock now lease client l w).0
release_lock-Fenced now lease client l w = elim (hand_over_cases now lease l' w') [
  | inl same ↦ subst (λ p. Fenced l p.0) (sym same) fewer
  | inr (q, qs, free, queued, handed) ↦
      subst (λ p. Fenced l p.0) (sym handed)
        (Fenced-raise l (promote now lease q qs l' w').0
          (omega (arith, (promote_lem now lease q qs l' w').2)))
]
  where
    l' : LockState
    l' = record l { holders = discard client l.holders }

    w' : WaitFor
    w' = remove_client client w

    fewer : Fenced l l'
    fewer = record {
      grows = omega arith;
      kind = λ e. refl;
      owners = λ e t c h. ground (arith, member-discard client c l.holders);
    }

-- The lock of a resource: a new one, where the table has none.
abbrev pub lock_of : String → LockTable → LockState
lock_of r s = or_else (lookup r s.locks) (new_lock r)

lock_of-do_acquire :
    (now : ℕ) (q c : String) (t : LockType) (lease : ℕ) (s : LockTable) (r : String)
    → Fenced (lock_of r s) (lock_of r (do_acquire now q c t lease s))
unfolding do_acquire
lock_of-do_acquire now q c t lease s r = elim (Bool-cases (q == r)) [
  | inl same ↦
      let e = beq_eq q r same in
      subst (λ x. Fenced (lock_of r s) (lock_of r (do_acquire now x c t lease s))) (sym e)
        (subst (Fenced (lock_of r s))
          (ground (
            arith,
            lookup-insert r r (acquire_lock now lease c t (lock_of r s)) s.locks,
            beq_refl r,
          ))
          (acquire_lock-Fenced now lease c t (lock_of r s)))
  | inr other ↦
      subst (Fenced (lock_of r s))
        (ground
          (arith, other, lookup-insert q r (acquire_lock now lease c t (lock_of q s)) s.locks))
        (Fenced-refl (lock_of r s))
]

lock_of-do_release :
    (now : ℕ) (q c : String) (s : LockTable) (r : String)
    → Fenced (lock_of r s) (lock_of r (do_release now q c s))
unfolding do_release
lock_of-do_release now q c s r = elim (Option-cases (lookup q s.locks)) [
  | inl missing ↦ rw missing (Fenced-refl (lock_of r s))
  | inr (l, found) ↦
      let l' = (release_lock now s.lease_timeout c l s.wait_for).0 in
      rw found (elim (Bool-cases (q == r)) [
        | inl same ↦
            subst₂ Fenced (ground (arith, beq_eq q r same, found))
              (ground (arith, same, lookup-insert q r l' s.locks))
              (release_lock-Fenced now s.lease_timeout c l s.wait_for)
        | inr other ↦
            subst (Fenced (lock_of r s)) (ground (arith, other, lookup-insert q r l' s.locks))
              (Fenced-refl (lock_of r s))
      ])
]

-- Between two points of any run, a resource's token has not fallen. If it is the same, so is the type
-- of the lock, and no client has become the holder of an exclusive lock.
pub run_locks-Fenced :
    (es : List LockEvent) (s : LockTable) (r : String)
    → Fenced (lock_of r s) (lock_of r (run_locks es s))
run_locks-Fenced es s r =
    run_locks_keeps {P = λ t. Fenced (lock_of r s) (lock_of r t)}
      (λ now q c t lease u f. Fenced-trans f (lock_of-do_acquire now q c t lease u r))
      (λ now q c u f. Fenced-trans f (lock_of-do_release now q c u r)) es s
      (Fenced-refl (lock_of r s))
