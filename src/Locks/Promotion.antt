-- ===== src/Locks/Promotion.antt =====
-- nodes/lock_manager.py: whom `_do_release` hands a free lock to: the first in the queue, and with a
-- shared request the shared requests behind it.
use tugas3_sinkronisasi_dist.Common.{
  ℕ, ◌+◌, String, some, List, [], ◌∷◌, ◌≡◌, refl, arith, if◌then◌else◌, string_eq, lookup,
  lookup-insert, add, discard, inl, inr, ◌⊎◌, beq_refl,
}
use tugas3_sinkronisasi_dist.Locks.Deadlocks.{WaitFor, remove_client}
use tugas3_sinkronisasi_dist.Locks.{
  is_shared, Request, LockState, LockTable, promote_shared, promote, hand_over, do_release,
}

-- A release leaves the lock as it is, or hands it to the head of the queue.
pub hand_over_cases :
    (now lease : ℕ) (l : LockState) (w : WaitFor)
    → (hand_over now lease l w ≡ (l, w))
      ⊎ ((q : Request) × (qs : List Request) × (l.holders ≡ [])
          × (l.waiting ≡ q ∷ qs)
          × (hand_over now lease l w ≡ promote now lease q qs l w))
hand_over_cases now lease l w = go l.holders refl l.waiting refl
  where
    go :
        (hs : List String)
        → l.holders ≡ hs
        → (qs : List Request) → l.waiting ≡ qs
        → (hand_over now lease l w ≡ (l, w))
          ⊎ ((q : Request) × (qs : List Request) × (l.holders ≡ [])
              × (l.waiting ≡ q ∷ qs)
              × (hand_over now lease l w ≡ promote now lease q qs l w))
    go [] e [] e' = inl (unfold hand_over in ground arith)
    go [] e (q ∷ qs) e' = inr (q, qs, e, e', unfold hand_over in ground arith)
    go (h ∷ hs) e qs e' = inl (unfold hand_over in ground arith)

-- The shared requests at the head of a queue, and the queue from the first exclusive one on.
unfoldable pub shared_head : List Request → List Request
shared_head [] = []
shared_head (q ∷ qs) = let rest = q ∷ shared_head qs in if is_shared q.lock_type then rest else []

unfoldable pub from_exclusive : List Request → List Request
from_exclusive [] = []
from_exclusive (q ∷ qs) =
    let rest = from_exclusive qs in if is_shared q.lock_type then rest else q ∷ qs

unfoldable pub add_clients : List Request → List String → List String
add_clients [] hs = hs
add_clients (q ∷ qs) hs = add_clients qs (add q.client_id hs)

promote_shared_lem :
    (qs : List Request) (l : LockState) (w : WaitFor)
    → ((promote_shared qs l w).0.holders ≡ add_clients (shared_head qs) l.holders)
      × ((promote_shared qs l w).0.waiting ≡ from_exclusive qs)
      × ((promote_shared qs l w).0.fencing_token ≡ l.fencing_token)
      × ((promote_shared qs l w).0.lock_type ≡ l.lock_type)
unfolding promote_shared shared_head from_exclusive add_clients
promote_shared_lem [] l w = (refl, refl, refl, refl)
promote_shared_lem (q ∷ qs) l w = ground (
  arith,
  promote_shared_lem qs (record l { holders = add q.client_id l.holders })
      (remove_client q.client_id w),
)

-- Who is granted together with the head of the queue.
abbrev pub granted_with : Request → List Request → List Request
granted_with q qs = if is_shared q.lock_type then shared_head qs else []

abbrev pub left_behind : Request → List Request → List Request
left_behind q qs = if is_shared q.lock_type then from_exclusive qs else qs

pub promote_lem :
    (now lease : ℕ) (q : Request) (qs : List Request) (l : LockState) (w : WaitFor)
    → ((promote now lease q qs l w).0.holders ≡ add_clients (granted_with q qs) (q.client_id ∷ []))
      × ((promote now lease q qs l w).0.waiting ≡ left_behind q qs)
      × ((promote now lease q qs l w).0.fencing_token ≡ l.fencing_token + 1)
      × ((promote now lease q qs l w).0.lock_type ≡ some q.lock_type)
unfolding promote
promote_lem now lease q qs l w =
    let l' = record l {
      lock_type = some q.lock_type;
      holders = q.client_id ∷ [];
      waiting = qs;
      fencing_token = l.fencing_token + 1;
      lease_expiry = now + lease;
    } in
    unfold add_clients in ground (arith, promote_shared_lem qs l' (remove_client q.client_id w))

-- When the last holder of a lock that is waited for releases it, the first in the queue gets it, with
-- the shared requests right behind it if it is shared; the others stay in order.
pub release_hands_over :
    (now : ℕ) (r client : String) (s : LockTable) (l : LockState) (q : Request) (qs : List Request)
    → lookup r s.locks ≡ some l
    → discard client l.holders ≡ []
    → l.waiting ≡ q ∷ qs
    → (l' : LockState) × (lookup r (do_release now r client s).locks ≡ some l')
      × (l'.holders ≡ add_clients (granted_with q qs) (q.client_id ∷ []))
      × (l'.waiting ≡ left_behind q qs)
      × (l'.fencing_token ≡ l.fencing_token + 1)
      × (l'.lock_type ≡ some q.lock_type)
unfolding do_release
release_hands_over now r client s l q qs found free queued =
    let m = record l { holders = discard client l.holders } in
    let w = remove_client client s.wait_for in
    let handed : hand_over now s.lease_timeout m w ≡ promote now s.lease_timeout q qs m w =
      (unfold hand_over in ground arith) in
    let facts = promote_lem now s.lease_timeout q qs m w in
    (
      (promote now s.lease_timeout q qs m w).0,
      ground (
        arith,
        found,
        lookup-insert r r (hand_over now s.lease_timeout m w).0 s.locks,
        beq_refl r,
        handed,
      ),
      facts.0,
      facts.1,
      facts.2,
      facts.3,
    )
