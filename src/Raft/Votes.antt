-- ===== src/Raft/Votes.antt =====
-- consensus/raft.py: when `_handle_vote_request` grants a vote, and that a vote is kept for its term.
use tugas3_sinkronisasi_dist.Common.{
  ℕ, zero, suc, ◌+◌, ◌-◌, ◌≤◌, ◌<◌, String, true, none, some, List, [], ◌∷◌, ◌≡◌, ◌↔◌, ◌⊎◌, arith,
  All, string_eq, nat_eq, length, none_or_eq_iff,
}
use tugas3_sinkronisasi_dist.Raft.{
  LogEntry, vote_request, Message, Raft, advance_round, advance_rounds, try_advance_commit,
  last_term,
}
use tugas3_sinkronisasi_dist.Raft.Handlers.{
  observe_term, handle_vote_request, dispatch, handle_message, begin_election, finish_election,
  become_leader, process_ae_resp, record_match, propose, propose_timeout, granted,
}
use tugas3_sinkronisasi_dist.Raft.Events.{Event, message, ae_response, step, run}
use tugas3_sinkronisasi_dist.Raft.Terms.{
  SameElection, apply_committed-SameElection, HasVoted, NotAppendAt, handle_message-HasVoted,
}

module _ {C : Type 0} where
  -- The request of `s` for the vote of term `t`, with the last index and term of its log.
  abbrev pub request : String → (t idx last : ℕ) → Message C
  request s t idx last = record {
    body = vote_request (some idx) (some last);
    sender_id = s;
    term = t;
  }

  -- The node's vote in term `t` is free for `s`.
  abbrev pub IsFree : Raft C → String → ℕ → Type 0
  IsFree r s t =
      (r.current_term < t)
      ⊎ ((r.current_term ≡ t) × ((r.voted_for ≡ none) ⊎ (r.voted_for ≡ some s)))

  -- A log that ends with the given index and term is not behind the node's.
  abbrev pub IsUpToDate : List (LogEntry C) → (idx last : ℕ) → Type 0
  IsUpToDate log idx last = (last_term log < last) ⊎ ((last ≡ last_term log) × (length log ≤ idx))

  pub granted_iff :
      (now : ℕ) (r : Raft C) (s : String) (t idx last : ℕ)
      → (granted (some (handle_message now (request s t idx last) r).1) ≡ true)
        ↔ (IsFree r s t × IsUpToDate r.log idx last)
  unfolding handle_message observe_term dispatch handle_vote_request
  granted_iff now r s t idx last = (
    λ g. ground (arith, none_or_eq_iff r.voted_for s),
    λ h. ground (arith, none_or_eq_iff r.voted_for s, none_or_eq_iff {A = String} none s),
  )

  pub granted-HasVoted :
      (now : ℕ) (r : Raft C) (s : String) (t idx last : ℕ)
      → granted (some (handle_message now (request s t idx last) r).1) ≡ true
      → HasVoted t s (handle_message now (request s t idx last) r).0
  unfolding handle_message observe_term dispatch handle_vote_request
  granted-HasVoted now r s t idx last g = ground arith

  advance_round-SameElection : (n : ℕ) (r : Raft C) → SameElection r (advance_round n r)
  unfolding advance_round
  advance_round-SameElection n r =
      ground (arith, apply_committed-SameElection (record r { commit_index = n }))

  advance_rounds-SameElection : (k n : ℕ) (r : Raft C) → SameElection r (advance_rounds k n r)
  unfolding advance_rounds
  advance_rounds-SameElection zero n r = ground arith
  advance_rounds-SameElection (suc k) n r = ground (
    arith,
    advance_round-SameElection n r,
    advance_rounds-SameElection k (n + 1) (advance_round n r),
  )

  pub try_advance_commit-SameElection : (r : Raft C) → SameElection r (try_advance_commit r)
  unfolding try_advance_commit
  try_advance_commit-SameElection r =
      ground
        (arith, advance_rounds-SameElection (length r.log - r.commit_index) (r.commit_index + 1) r)

  pub record_match-SameElection :
      (pid : String) (pli : ℕ) (es : List (LogEntry C)) (r : Raft C)
      → SameElection r (record_match pid pli es r)
  unfolding record_match
  record_match-SameElection pid pli [] r = ground arith
  record_match-SameElection pid pli (e ∷ es) r = ground arith

  -- Any event but an AppendEntries of the very term.
  abbrev pub NotAppendEvent : ℕ → Event C → Type 0
  NotAppendEvent t (message now m) = NotAppendAt t m
  NotAppendEvent t _ = Unit

  step-HasVoted :
      (t : ℕ) (s : String) (e : Event C) (r : Raft C)
      → NotAppendEvent t e
      → HasVoted t s r
      → HasVoted t s (step e r)
  unfolding step begin_election finish_election become_leader process_ae_resp propose
      propose_timeout
  step-HasVoted t s (message now m) r ne v = handle_message-HasVoted t now s m r ne v
  step-HasVoted t s (ae_response pid pli es term success) r ne v = ground (
    arith,
    record_match-SameElection pid pli es r,
    try_advance_commit-SameElection (record_match pid pli es r),
  )
  step-HasVoted t s _ r ne v = ground arith

  run-HasVoted :
      (t : ℕ) (s : String) (es : List (Event C)) (r : Raft C)
      → All (NotAppendEvent t) es
      → HasVoted t s r
      → HasVoted t s (run es r)
  unfolding run
  run-HasVoted t s [] r ne v = v
  run-HasVoted t s (e ∷ es) r ne v =
      run-HasVoted t s es (step e r) ne.1 (step-HasVoted t s e r ne.0 v)

  pub one_vote_a_term :
      (now now' : ℕ) (r : Raft C) (s s' : String) (t i l i' l' : ℕ) (es : List (Event C))
      → All (NotAppendEvent t) es
      → granted (some (handle_message now (request s t i l) r).1) ≡ true
      → granted (
          some
            (handle_message now'
              (request s' t i' l')
              (run es (handle_message now (request s t i l) r).0)).1)
        ≡ true
      → s ≡ s'
  one_vote_a_term now now' r s s' t i l i' l' es ne g g' =
      let q = run es (handle_message now (request s t i l) r).0 in
      let v = run-HasVoted t s es _ ne (granted-HasVoted now r s t i l g) in
      let free = ((granted_iff now' q s' t i' l').0 g').0 in ground arith
