-- ===== src/Locks/Requests/Tokens.antt =====
-- nodes/lock_manager.py: what a client that is answered "acquired" may rely on.
use tugas3_sinkronisasi_dist.Common.{
  ℕ, ◌≤◌, ◌<◌, String, true, some, List, [], ◌∷◌, ◌≡◌, ◌≢◌, refl, sym, ap, ◌∙◌, arith, string_eq,
  ◌==◌, lookup, member, length, Option-cases, Bool-cases, inl, inr, beq_eq, ne_of_beq, ltb,
}
use tugas3_sinkronisasi_dist.Locks.{LockState, LockTable, exclusive}
use tugas3_sinkronisasi_dist.Locks.Events.{LockEvent, run_locks}
use tugas3_sinkronisasi_dist.Locks.Exclusion.{IsSafe, new_lock-IsSafe, AllSafe}
use tugas3_sinkronisasi_dist.Locks.Fencing.{lock_of, run_locks-Fenced}
use tugas3_sinkronisasi_dist.Locks.Requests.{
  AcquireRequest, ManagerAnswer, acquire_status, client_named, finish_acquire,
}

abbrev token_of : ManagerAnswer → ℕ
token_of (acquire_status status token) = token
token_of _ = 0

abbrev status_of : ManagerAnswer → String
status_of (acquire_status status token) = status
status_of _ = ""

not_both : {A : Type 0} → ◌≡◌ {A = String} "waiting" "acquired" → A
not_both e = absurd (ne_of_beq "waiting" "acquired" refl e)

-- The lock of an answer "acquired" is held by the client, with the token of the answer.
acquired_lem :
    (s : LockTable) (req : AcquireRequest) (token : ℕ)
    → finish_acquire s req true ≡ acquire_status "acquired" token
    → (l : LockState) × (lookup req.resource s.locks ≡ some l)
      × (member (client_named req.client_id) l.holders ≡ true)
      × (l.fencing_token ≡ token)
acquired_lem s req token h = elim (Option-cases (lookup req.resource s.locks)) [
  | inl missing ↦
      let waits : finish_acquire s req true ≡ acquire_status "waiting" 0 =
        unfold finish_acquire in rw (missing, finish_acquire) refl in
      not_both (ap status_of (sym waits ∙ h))
  | inr (l, found) ↦ elim (Bool-cases (member (client_named req.client_id) l.holders)) [
    | inl holds ↦
        let got : finish_acquire s req true ≡ acquire_status "acquired" l.fencing_token =
          unfold finish_acquire in rw (found, finish_acquire, holds) refl in
        (l, found, holds, ap token_of (sym got ∙ h))
    | inr absent ↦
        let waits : finish_acquire s req true ≡ acquire_status "waiting" l.fencing_token =
          unfold finish_acquire in rw (found, finish_acquire, absent) refl in
        not_both (ap status_of (sym waits ∙ h))
  ]
]

-- The same with `lock_of`.
acquired_lock :
    (s : LockTable) (resource : String) (req : AcquireRequest) (token : ℕ)
    → req.resource ≡ resource
    → finish_acquire s req true ≡ acquire_status "acquired" token
    → (member (client_named req.client_id) (lock_of resource s).holders ≡ true)
      × ((lock_of resource s).fencing_token ≡ token)
acquired_lock s resource req token names h =
    let (l, found, holds, same) = acquired_lem s req token h in
    let found' : lock_of resource s ≡ l = ap (λ r. lock_of r s) (sym names) ∙ rw found refl in
    (
      ap (λ (l : LockState). member (client_named req.client_id) l.holders) found' ∙ holds,
      ap (λ (l : LockState). l.fencing_token) found' ∙ same,
    )

-- The one holder.
held : (x c : String) → member c (x ∷ []) ≡ true → x ≡ c
unfolding member
held x c h = elim (Bool-cases (x == c)) [
  | inl same ↦ beq_eq x c same
  | inr other ↦ absurd (ground (arith, h, other))
]

only_holder :
    (c d : String) (hs : List String)
    → length hs ≤ 1
    → member c hs ≡ true
    → member d hs ≡ true
    → c ≡ d
unfolding member
only_holder c d [] one h h' = absurd cc
only_holder c d (x ∷ []) one h h' = sym (held x c h) ∙ held x d h'
only_holder c d (x ∷ y ∷ hs) one h h' = absurd (omega arith)

lock_of-IsSafe : (s : LockTable) (r : String) → AllSafe s → IsSafe (lock_of r s)
lock_of-IsSafe s r all = elim (Option-cases (lookup r s.locks)) [
  | inl missing ↦ rw missing (new_lock-IsSafe r)
  | inr (l, found) ↦ rw found (all r l found)
]

-- If a client was told that it has acquired an exclusive lock, and later, whatever has happened in
-- between, another client is told the same of that lock, then its fencing token is greater.
pub answered_tokens_grow :
    (s : LockTable) (es : List LockEvent) (resource : String) (req req' : AcquireRequest)
    (token token' : ℕ)
    → AllSafe s
    → (lock_of resource s).lock_type ≡ some exclusive
    → req.resource ≡ resource
    → req'.resource ≡ resource
    → client_named req.client_id ≢ client_named req'.client_id
    → finish_acquire s req true ≡ acquire_status "acquired" token
    → finish_acquire (run_locks es s) req' true ≡ acquire_status "acquired" token'
    → token < token'
answered_tokens_grow s es resource req req' token token' all kind names names' differ h h' =
    let l = lock_of resource s in
    let l' = lock_of resource (run_locks es s) in
    let (holds, same) = acquired_lock s resource req token names h in
    let (holds', same') = acquired_lock (run_locks es s) resource req' token' names' h' in
    let fenced = run_locks-Fenced es s resource in
    elim (Bool-cases (ltb l.fencing_token l'.fencing_token)) [
      | inl greater ↦ ground (arith, greater, same, same')
      | inr equal ↦
          let still : l'.fencing_token ≡ l.fencing_token = ground (arith, equal, fenced.grows) in
          let held =
            fenced.owners still (fenced.kind still ∙ kind) (client_named req'.client_id) holds' in
          absurd (
            differ (
              only_holder (client_named req.client_id) (client_named req'.client_id) l.holders
                ((lock_of-IsSafe s resource all).one kind) holds held))
    ]
