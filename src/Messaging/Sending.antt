-- ===== src/Messaging/Sending.antt =====
-- communication/message_passing.py: how often `send` tries, how long it waits, and which reply it
-- returns; the replies of a broadcast.
use Prim.Native.Nat.{◌^◌}
use tugas3_sinkronisasi_dist.Common.{
  ℕ, zero, suc, ◌+◌, ◌-◌, ◌≤◌, ◌<◌, String, Bool, true, false, Option, none, some, List, [], ◌∷◌,
  length, get_elem?, ◌∙◌, if◌then◌else◌, string_eq, ◌==◌, nat_eq, ltb, Dict, lookup, insert,
  lookup-insert, ◌≡◌, refl, arith, Bool-cases, inl, inr, ap, ◌⊎◌, subst,
}
use tugas3_sinkronisasi_dist.Messaging.{
  Outcome, replied, bad_status, timed_out, client_error, unexpected, Sent, slept, send_from,
  max_attempts, send, Peer, replies, broadcast,
}

-- The delays of an attempt and of those after it.
waits_from :
    (start : ℕ) (ds : List ℕ)
    → ((j : ℕ) → j < length ds → get_elem? ds j ≡ some (2 ^ (start + 1 + j)))
    → (j : ℕ) → j < length (2 ^ start ∷ ds)
    → get_elem? (2 ^ start ∷ ds) j ≡ some (2 ^ (start + j))
waits_from start ds h zero few = ap (λ (n : ℕ). some (2 ^ n)) (omega arith)
waits_from start ds h (suc j) few = h j (omega arith) ∙ ap (λ (n : ℕ). some (2 ^ n)) (omega arith)

module _ {R : Type 0} where
  -- An attempt that `send` tries again after.
  abbrev pub IsRetried : Outcome R → Type 0
  IsRetried (replied r) = ⊥
  IsRetried unexpected = ⊥
  IsRetried (bad_status status) = Unit
  IsRetried timed_out = Unit
  IsRetried client_error = Unit

  abbrev IsLast : (outcome : ℕ → Outcome R) (limit last : ℕ) → Option R → Type 0
  IsLast outcome limit last (some r) = outcome last ≡ replied r
  IsLast outcome limit last none =
      (outcome last ≡ unexpected) ⊎ (IsRetried (outcome last) × (suc last ≡ limit))

  -- What is sent from an attempt `start` on, if all attempts end before `limit`.
  pub record IsSent (outcome : ℕ → Outcome R) (start limit : ℕ) (s : Sent R) : Type 0 where
    pub last : ℕ
    pub attempts : s.attempts ≡ suc last
    pub starts : start ≤ last
    pub ends : last < limit
    pub retried : (i : ℕ) → start ≤ i → i < last → IsRetried (outcome i)
    pub result : IsLast outcome limit last s.reply
    pub waits : start + length s.delays ≡ last
    pub waited : (j : ℕ) → j < length s.delays → get_elem? s.delays j ≡ some (2 ^ (start + j))

  Outcome-cases : (o : Outcome R) → ((r : R) × (o ≡ replied r)) ⊎ ((o ≡ unexpected) ⊎ IsRetried o)
  Outcome-cases (replied r) = inl (r, refl)
  Outcome-cases unexpected = inr (inl refl)
  Outcome-cases (bad_status status) = inr (inr tt)
  Outcome-cases timed_out = inr (inr tt)
  Outcome-cases client_error = inr (inr tt)

  retry_of :
      (o : Outcome R) (again stop : Sent R) (reply : R → Sent R)
      → IsRetried o
      → elim o as (λ (o : Outcome R). Sent R) [
        | replied r ↦ reply r
        | unexpected ↦ stop
        | bad_status status ↦ again
        | timed_out ↦ again
        | client_error ↦ again
      ]
        ≡ again
  retry_of (replied r) again stop reply h = absurd h
  retry_of unexpected again stop reply h = absurd h
  retry_of (bad_status status) again stop reply h = refl
  retry_of timed_out again stop reply h = refl
  retry_of client_error again stop reply h = refl

  send_from_retried :
      (limit : ℕ) (outcome : ℕ → Outcome R) (left attempt : ℕ)
      → IsRetried (outcome attempt)
      → send_from limit outcome (suc left) attempt
        ≡ slept (ltb attempt (limit - 1)) (2 ^ attempt) (send_from limit outcome left (attempt + 1))
  unfolding send_from
  send_from_retried limit outcome left attempt h =
      retry_of (outcome attempt)
        (slept (ltb attempt (limit - 1)) (2 ^ attempt) (send_from limit outcome left (attempt + 1)))
        (record { reply = none; attempts = attempt + 1; delays = [] })
        (λ r. record { reply = some r; attempts = attempt + 1; delays = [] }) h

  -- one more attempt and wait before the rest
  slept-IsSent :
      (outcome : ℕ → Outcome R) (start limit : ℕ) (s : Sent R)
      → IsRetried (outcome start)
      → IsSent outcome (start + 1) limit s
      → IsSent outcome start limit (record s { delays = 2 ^ start ∷ s.delays })
  slept-IsSent outcome start limit s h g = record {
    last = g.last;
    attempts = g.attempts;
    starts = omega (arith, g.starts);
    ends = g.ends;
    retried = λ i low high. elim (Bool-cases (i == start)) [
      | inl same ↦ subst (λ j. IsRetried (outcome j)) (ground (arith, same)) h
      | inr later ↦ g.retried i (ground (arith, later, low)) high
    ];
    result = g.result;
    waits = omega (arith, g.waits);
    waited = λ j few. waits_from start s.delays g.waited j few;
  }

  send_from_step :
      (limit : ℕ) (outcome : ℕ → Outcome R) (left attempt : ℕ)
      → attempt + suc left ≡ limit
      → (IsRetried (outcome attempt)
          → IsSent outcome attempt limit (
              slept
                (ltb attempt (limit - 1))
                (2 ^ attempt)
                (send_from limit outcome left (attempt + 1))))
      → IsSent outcome attempt limit (send_from limit outcome (suc left) attempt)
  unfolding send_from
  send_from_step limit outcome left attempt e rest = elim (Outcome-cases (outcome attempt)) [
    | inl (r, answer) ↦
        rw (answer, send_from)
          (record {
            last = attempt;
            attempts = omega arith;
            starts = omega arith;
            ends = omega (arith, e);
            retried = λ i low high. absurd (omega (arith, low, high));
            result = answer;
            waits = omega arith;
            waited = λ j few. absurd (omega arith);
          })
    | inr (inl odd) ↦
        rw (odd, send_from)
          (record {
            last = attempt;
            attempts = omega arith;
            starts = omega arith;
            ends = omega (arith, e);
            retried = λ i low high. absurd (omega (arith, low, high));
            result = inl odd;
            waits = omega arith;
            waited = λ j few. absurd (omega arith);
          })
    | inr (inr again) ↦ rw (send_from_retried limit outcome left attempt again) (rest again)
  ]

  send_from-IsSent :
      (limit : ℕ) (outcome : ℕ → Outcome R) (left attempt : ℕ)
      → attempt + suc left ≡ limit
      → IsSent outcome attempt limit (send_from limit outcome (suc left) attempt)
  unfolding send_from
  send_from-IsSent limit outcome zero attempt e =
      send_from_step limit outcome zero attempt e (λ again.
        let stop : ltb attempt (limit - 1) ≡ false = ground (arith, e) in
        rw stop (record {
          last = attempt;
          attempts = omega arith;
          starts = omega arith;
          ends = omega (arith, e);
          retried = λ i low high. absurd (omega (arith, low, high));
          result = inr (again, omega (arith, e));
          waits = omega arith;
          waited = λ j few. absurd (omega arith);
        }))
  send_from-IsSent limit outcome (suc left) attempt e =
      send_from_step limit outcome (suc left) attempt e (λ again.
        let wait : ltb attempt (limit - 1) ≡ true = ground (arith, e) in
        rw wait (
          slept-IsSent outcome attempt limit (send_from limit outcome (suc left) (attempt + 1))
            again (send_from-IsSent limit outcome left (attempt + 1) (omega (arith, e)))))

  -- With a positive `max_retries`, `send` makes at least one attempt and at most `max_retries`, or one
  -- where it is not to retry. All but the last ended in another status, a timeout or an error of the client. It returns the reply of
  -- the last one if there is one; otherwise the last was an unexpected exception, or failed like the
  -- others with no attempts left. Between the attempts it sleeps 1, 2, 4, … tenths of a second, in
  -- this order.
  pub send_lem :
      (max_retries : ℕ) (retry : Bool) (outcome : ℕ → Outcome R)
      → 0 < max_retries
      → IsSent outcome 0 (max_attempts max_retries retry) (send max_retries retry outcome)
  unfolding send
  send_lem (suc n) true outcome some_left = send_from-IsSent (suc n) outcome n 0 (omega arith)
  send_lem (suc n) false outcome some_left = send_from-IsSent 1 outcome 0 0 (omega arith)
  send_lem zero retry outcome some_left = absurd (omega (arith, some_left))

-- The reply of the last of these peers that has the name.
abbrev pub last_reply : {R : Type 0} → (Peer → Option R) → String → List Peer → Option (Option R)
last_reply reply name [] = none
last_reply reply name (peer ∷ peers) = elim (last_reply reply name peers) [
  | some r ↦ some r
  | none ↦ if peer.node_id == name then some (reply peer) else none
]

replies_lem :
    {R : Type 0} (reply : Peer → Option R) (name : String) (peers : List Peer)
    (results : Dict String (Option R))
    → lookup name (replies reply peers results)
      ≡ elim (last_reply reply name peers) [ some r ↦ some r | none ↦ lookup name results ]
unfolding replies
replies_lem reply name [] results = refl
replies_lem reply name (peer ∷ peers) results = ground (
  arith,
  replies_lem reply name peers (insert peer.node_id (reply peer) results),
  lookup-insert peer.node_id name (reply peer) results,
)

-- A broadcast gives each name of a peer the reply of the last peer of that name.
pub broadcast_lem :
    {R : Type 0} (reply : Peer → Option R) (name : String) (peers : List Peer)
    → lookup name (broadcast reply peers) ≡ last_reply reply name peers
unfolding broadcast lookup
broadcast_lem reply name peers = ground (arith, replies_lem reply name peers [])
