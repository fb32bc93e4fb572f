-- ===== src/Locks/Edges.antt =====
-- nodes/lock_manager.py: the edges of the wait-for graph, and what acquiring and releasing do to them.
use tugas3_sinkronisasi_dist.Common.{
  ℕ, ◌+◌, String, Bool, true, false, ◌||◌, ◌&&◌, not, some, List, [], ◌∷◌, ◌≡◌, ◌≢◌, refl, arith,
  if◌then◌else◌, or_else, string_eq, ◌==◌, lookup, pop, lookup-insert, lookup-pop, member, add,
  discard, member-add, member-discard, beq_refl, beq_eq,
}
use tugas3_sinkronisasi_dist.Locks.Deadlocks.{WaitFor, add_wait, remove_client, update, discard_all}
use tugas3_sinkronisasi_dist.Locks.{
  LockType, Request, LockState, LockTable, grants, do_acquire, promote_shared, promote, hand_over,
  do_release,
}

-- `a` waits for `b`.
abbrev pub edge : String → String → WaitFor → Bool
edge a b w = member b (or_else (lookup a w) [])

member-update :
    (b : String) (hs xs : List String)
    → member b (update hs xs) ≡ (if member b hs then true else member b xs)
unfolding update member
member-update b [] xs = refl
member-update b (h ∷ hs) xs = ground (arith, member-update b hs (add h xs), member-add h b xs)

-- A waiter waits for the holders other than itself, and for whom it waited for before.
pub edge-add_wait :
    (x : String) (hs : List String) (w : WaitFor) (a b : String)
    → edge a b (add_wait x hs w)
      ≡ (if x == a && (member b hs && not (x == b)) then true else edge a b w)
unfolding add_wait
edge-add_wait x hs w a b =
    let old = or_else (lookup x w) [] in
    ground (
      arith,
      lookup-insert x a (update (discard x hs) old) w,
      member-update b (discard x hs) old,
      member-discard x b hs,
      beq_eq x a,
    )

discard_all-lookup :
    (c k b : String) (w : WaitFor)
    → edge k b (discard_all c w) ≡ (if c == b then false else edge k b w)
unfolding discard_all lookup member
discard_all-lookup c k b [] = ground arith
discard_all-lookup c k b ((j, s) ∷ w) =
    ground (arith, discard_all-lookup c k b w, member-discard c b s)

-- A client that is removed waits for nobody, and nobody waits for it.
pub edge-remove_client :
    (c a b : String) (w : WaitFor)
    → edge a b (remove_client c w) ≡ (if c == a || c == b then false else edge a b w)
unfolding remove_client member
edge-remove_client c a b w = ground (arith, discard_all-lookup c a b (pop c w), lookup-pop c a w)

-- A request that is refused waits for every other client that holds the lock.
pub refused_waits_for_holders :
    (now : ℕ) (r c : String) (t : LockType) (lease : ℕ) (s : LockTable) (l : LockState) (h : String)
    → lookup r s.locks ≡ some l
    → grants t l ≡ false
    → member h l.holders ≡ true
    → c ≢ h
    → edge c h (do_acquire now r c t lease s).wait_for ≡ true
unfolding do_acquire
refused_waits_for_holders now r c t lease s l h found refused holds ne = ground (
  arith,
  found,
  refused,
  edge-add_wait c l.holders s.wait_for c h,
  holds,
  beq_refl c,
  beq_eq c h,
  ne,
)

promote_shared-edge :
    (qs : List Request) (l : LockState) (w : WaitFor) (a b : String)
    → edge a b w ≡ false
    → edge a b (promote_shared qs l w).1 ≡ false
unfolding promote_shared
promote_shared-edge [] l w a b no_edge = no_edge
promote_shared-edge (q ∷ qs) l w a b no_edge =
    let l' = record l { holders = add q.client_id l.holders } in
    ground (
      arith,
      edge-remove_client q.client_id a b w,
      promote_shared-edge qs l' (remove_client q.client_id w) a b,
    )

promote-edge :
    (now lease : ℕ) (q : Request) (qs : List Request) (l : LockState) (w : WaitFor) (a : String)
    → edge a q.client_id (promote now lease q qs l w).1 ≡ false
unfolding promote
promote-edge now lease q qs l w a =
    let l' = record l {
      lock_type = some q.lock_type;
      holders = q.client_id ∷ [];
      waiting = qs;
      fencing_token = l.fencing_token + 1;
      lease_expiry = now + lease;
    } in
    let w' = remove_client q.client_id w in
    ground (
      arith,
      edge-remove_client q.client_id a q.client_id w,
      beq_refl q.client_id,
      promote_shared-edge qs l' w' a q.client_id,
    )

-- After a lock has been handed over, no client waits for its new holder in the graph, though the
-- clients left in the queue wait for it.
pub hand_over_misses_edges :
    (now : ℕ) (r client : String) (s : LockTable) (l : LockState) (q : Request) (qs : List Request)
    → lookup r s.locks ≡ some l
    → discard client l.holders ≡ []
    → l.waiting ≡ q ∷ qs
    → (a : String) → edge a q.client_id (do_release now r client s).wait_for ≡ false
unfolding do_release hand_over
hand_over_misses_edges now r client s l q qs found free queued a =
    let m = record l { holders = discard client l.holders } in
    ground (
      arith,
      found,
      free,
      queued,
      promote-edge now s.lease_timeout q qs m (remove_client client s.wait_for) a,
    )
