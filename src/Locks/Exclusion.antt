-- ===== src/Locks/Exclusion.antt =====
-- nodes/lock_manager.py: mutual exclusion, and no waiter beside a free lock, after any commands and
-- lease expiries.
use tugas3_sinkronisasi_dist.Common.{
  ℕ, ◌+◌, ◌≤◌, String, Option, none, some, List, [], ◌∷◌, ◌≡◌, ◌≢◌, refl, arith, or_else, ◌==◌,
  string_eq, lookup, insert, add, discard, length, lookup-insert, Bool-cases, Option-cases, inl,
  inr, length-discard-le, add-ne-nil, subst,
}
use tugas3_sinkronisasi_dist.Locks.Deadlocks.{WaitFor, remove_client}
use tugas3_sinkronisasi_dist.Locks.Events.{LockEvent, run_locks, run_locks_keeps}
use tugas3_sinkronisasi_dist.Locks.{
  LockType, shared, exclusive, is_shared, Request, LockState, new_lock, LockTable, acquire_lock,
  do_acquire, promote_shared, promote, hand_over, release_lock, release_found, do_release,
}

-- An exclusive lock has one holder at most, a lock that is held has a type, and nobody waits for a
-- lock that is free.
pub record IsSafe (l : LockState) : Type 0 where
  pub one : l.lock_type ≡ some exclusive → length l.holders ≤ 1
  pub idle : l.holders ≡ [] → l.waiting ≡ []

pub new_lock-IsSafe : (resource : String) → IsSafe (new_lock resource)
new_lock-IsSafe resource = record { one = λ e. omega arith; idle = λ e. refl }

acquire_lock-IsSafe :
    (now lease : ℕ) (client : String) (t : LockType) (l : LockState)
    → IsSafe l
    → IsSafe (acquire_lock now lease client t l)
unfolding acquire_lock add
acquire_lock-IsSafe now lease client t l v = record {
  one = ground (arith, v.one);
  idle = ground (arith, v.idle);
}

promote_shared-IsSafe :
    (qs : List Request) (l : LockState) (w : WaitFor)
    → l.lock_type ≡ some shared
    → l.holders ≢ []
    → IsSafe (promote_shared qs l w).0
unfolding promote_shared
promote_shared-IsSafe [] l w t h = record { one = λ e. ground arith; idle = λ e. refl }
promote_shared-IsSafe (q ∷ qs) l w t h = elim (Bool-cases (is_shared q.lock_type)) [
  | inl more ↦ rw more (
      promote_shared-IsSafe qs (record l { holders = add q.client_id l.holders })
        (remove_client q.client_id w) t (add-ne-nil q.client_id l.holders))
  | inr stop ↦ rw stop (record { one = λ e. ground arith; idle = λ e. absurd (h e) })
]

promote-IsSafe :
    (now lease : ℕ) (q : Request) (qs : List Request) (l : LockState) (w : WaitFor)
    → IsSafe (promote now lease q qs l w).0
unfolding promote
promote-IsSafe now lease q qs l w = go q.lock_type refl
  where
    go : (t : LockType) → q.lock_type ≡ t → IsSafe (promote now lease q qs l w).0
    go shared e =
        rw (e, promote)
          (promote_shared-IsSafe qs
            (record l {
              lock_type = some shared;
              holders = q.client_id ∷ [];
              waiting = qs;
              fencing_token = l.fencing_token + 1;
              lease_expiry = now + lease;
            })
            (remove_client q.client_id w) refl (λ h. cc))
    go exclusive e = rw (e, promote) (record { one = λ h. omega arith; idle = λ h. cc })

hand_over-IsSafe :
    (now lease : ℕ) (l : LockState) (w : WaitFor)
    → (l.lock_type ≡ some exclusive → length l.holders ≤ 1)
    → IsSafe (hand_over now lease l w).0
hand_over-IsSafe now lease l w one = go l.holders refl l.waiting refl
  where
    go :
        (hs : List String)
        → l.holders ≡ hs
        → (qs : List Request) → l.waiting ≡ qs
        → IsSafe (hand_over now lease l w).0
    go [] e [] e' = unfold hand_over in rw (e, e', hand_over) (record { one = one; idle = λ h. e' })
    go [] e (q ∷ qs) e' =
        unfold hand_over in rw (e, e', hand_over) (promote-IsSafe now lease q qs l w)
    go (h ∷ hs) e qs e' =
        unfold hand_over in rw (e, hand_over) (record { one = one; idle = λ x. cc })

release_lock-IsSafe :
    (now lease : ℕ) (client : String) (l : LockState) (w : WaitFor)
    → IsSafe l
    → IsSafe (release_lock now lease client l w).0
release_lock-IsSafe now lease client l w v =
    hand_over-IsSafe now lease (record l { holders = discard client l.holders })
      (remove_client client w) (λ e. omega (arith, v.one e, length-discard-le client l.holders))

-- Every lock of the table is safe.
abbrev pub AllSafe : LockTable → Type 0
AllSafe s = (r : String) (l : LockState) → lookup r s.locks ≡ some l → IsSafe l

insert-AllSafe :
    (r : String) (l : LockState) (s s' : LockTable)
    → s'.locks ≡ insert r l s.locks
    → IsSafe l
    → AllSafe s
    → AllSafe s'
insert-AllSafe r l s s' e v all q m h = elim (Bool-cases (r == q)) [
  | inl same ↦ subst IsSafe (ground (arith, e, same, lookup-insert r q l s.locks)) v
  | inr other ↦ all q m (ground (arith, e, other, lookup-insert r q l s.locks))
]

do_acquire-AllSafe :
    (now : ℕ) (r client : String) (t : LockType) (lease : ℕ) (s : LockTable)
    → AllSafe s
    → AllSafe (do_acquire now r client t lease s)
unfolding do_acquire
do_acquire-AllSafe now r client t lease s all =
    insert-AllSafe r (acquire_lock now lease client t lock) s (do_acquire now r client t lease s)
      refl (acquire_lock-IsSafe now lease client t lock (found (lookup r s.locks) refl)) all
  where
    lock : LockState
    lock = or_else (lookup r s.locks) (new_lock r)

    found : (o : Option LockState) → lookup r s.locks ≡ o → IsSafe (or_else o (new_lock r))
    found none e = new_lock-IsSafe r
    found (some l) e = all r l e

do_release-AllSafe :
    (now : ℕ) (r client : String) (s : LockTable) → AllSafe s → AllSafe (do_release now r client s)
unfolding do_release
do_release-AllSafe now r client s all = elim (Option-cases (lookup r s.locks)) [
  | inl missing ↦ rw missing all
  | inr (l, found) ↦ rw found (
      insert-AllSafe r (release_lock now s.lease_timeout client l s.wait_for).0 s
        (release_found now r client (some l) s) refl
        (release_lock-IsSafe now s.lease_timeout client l s.wait_for (all r l found)) all)
]

-- After any commands and lease expiries, every lock is safe if it was before.
pub run_locks-AllSafe : (es : List LockEvent) (s : LockTable) → AllSafe s → AllSafe (run_locks es s)
run_locks-AllSafe es s all = run_locks_keeps do_acquire-AllSafe do_release-AllSafe es s all
