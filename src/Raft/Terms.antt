-- ===== src/Raft/Terms.antt =====
-- consensus/raft.py: terms never fall, and a vote is kept for its term.
use tugas3_sinkronisasi_dist.Common.{
  ℕ, zero, suc, ◌+◌, ◌≤◌, String, Option, some, List, ◌≡◌, ◌≢◌, refl, arith, get_elem?, or_else,
  none_or_eq_iff, string_eq, nat_eq, min, max, length,
}
use tugas3_sinkronisasi_dist.Raft.{
  LogEntry, Body, vote_request, vote_response, append_entries, append_entries_response, other,
  Message, Raft, apply_rounds, apply_committed, deliver,
}
use tugas3_sinkronisasi_dist.Raft.Handlers.{
  observe_term, handle_vote_request, handle_append_entries, dispatch, handle_message, follow_commit,
  become_follower, splice,
}

-- What the commit machinery leaves alone.
pub record SameElection {C : Type 0} (r s : Raft C) : Type 0 where
  pub term : s.current_term ≡ r.current_term
  pub voted : s.voted_for ≡ r.voted_for
  pub role : s.state ≡ r.state
  pub entries : s.log ≡ r.log

module _ {C : Type 0} where
  pub apply_rounds-SameElection : (fuel : ℕ) (r : Raft C) → SameElection r (apply_rounds fuel r)
  unfolding apply_rounds
  apply_rounds-SameElection zero r = ground arith
  apply_rounds-SameElection (suc fuel) r =
      let next =
        deliver (get_elem? r.log r.last_applied) (record r { last_applied = r.last_applied + 1 }) in
      ground (arith, apply_rounds-SameElection fuel next)

  pub apply_committed-SameElection : (r : Raft C) → SameElection r (apply_committed r)
  unfolding apply_committed
  apply_committed-SameElection r = apply_rounds-SameElection _ r

  pub follow_commit-SameElection : (lc : ℕ) (r : Raft C) → SameElection r (follow_commit lc r)
  unfolding follow_commit
  follow_commit-SameElection lc r =
      ground
        (arith, apply_committed-SameElection (record r { commit_index = min lc (length r.log) }))

  -- A handler that runs after `observe_term` keeps the term.
  handle_vote_request-term :
      (now term : ℕ) (s : String) (lli llt : Option ℕ) (r : Raft C)
      → term ≤ r.current_term
      → (handle_vote_request now term s lli llt r).0.current_term ≡ r.current_term
  unfolding handle_vote_request
  handle_vote_request-term now term s lli llt r h = ground arith

  handle_append_entries-term :
      (now term : ℕ) (s : String) (pli plt : Option ℕ) (es : List (LogEntry C)) (lc : Option ℕ)
      → (r : Raft C) → term ≤ r.current_term
      → (handle_append_entries now term s pli plt es lc r).0.current_term ≡ r.current_term
  unfolding handle_append_entries
  handle_append_entries-term now term s pli plt es lc r h =
      let f = record (become_follower now term s r) { log = splice (or_else pli 0) es r.log } in
      ground (arith, follow_commit-SameElection (or_else lc 0) f)

  dispatch-term :
      (now : ℕ) (m : Message C) (b : Body C) (r : Raft C)
      → m.term ≤ r.current_term
      → (dispatch now m b r).0.current_term ≡ r.current_term
  unfolding dispatch
  dispatch-term now m (vote_request lli llt) r h =
      handle_vote_request-term now m.term m.sender_id lli llt r h
  dispatch-term now m (append_entries pli plt es lc) r h =
      handle_append_entries-term now m.term m.sender_id pli plt es lc r h
  dispatch-term now m vote_response r h = refl
  dispatch-term now m append_entries_response r h = refl
  dispatch-term now m other r h = refl

  -- Whatever its type, a message leaves the node at the greater of its own term and the message's.
  pub handle_message_term :
      (now : ℕ) (m : Message C) (r : Raft C)
      → (handle_message now m r).0.current_term ≡ max r.current_term m.term
  unfolding handle_message observe_term
  handle_message_term now m r = ground (arith, dispatch-term now m m.body (observe_term m.term r))

  -- The node has voted for `s` in term `t`, or has gone on to a later term.
  pub record HasVoted (t : ℕ) (s : String) (r : Raft C) : Type 0 where
    pub reached : t ≤ r.current_term
    pub kept : r.current_term ≡ t → r.voted_for ≡ some s

  -- Any message but an AppendEntries of the very term.
  abbrev pub NotAppendAt : ℕ → Message C → Type 0
  NotAppendAt t m =
      (pli plt : Option ℕ) (es : List (LogEntry C)) (lc : Option ℕ)
      → m.body ≡ append_entries pli plt es lc
      → m.term ≢ t

  observe_term-HasVoted :
      (t term : ℕ) (s : String) (r : Raft C) → HasVoted t s r → HasVoted t s (observe_term term r)
  unfolding observe_term
  observe_term-HasVoted t term s r v = ground arith

  handle_vote_request-HasVoted :
      (t now term : ℕ) (s c : String) (lli llt : Option ℕ) (r : Raft C)
      → term ≤ r.current_term
      → HasVoted t s r
      → HasVoted t s (handle_vote_request now term c lli llt r).0
  unfolding handle_vote_request
  handle_vote_request-HasVoted t now term s c lli llt r le v =
      ground (arith, none_or_eq_iff r.voted_for c)

  handle_append_entries-HasVoted :
      (t now term : ℕ) (s c : String) (pli plt : Option ℕ) (es : List (LogEntry C)) (lc : Option ℕ)
      → (r : Raft C) → term ≤ r.current_term
      → term ≢ t
      → HasVoted t s r
      → HasVoted t s (handle_append_entries now term c pli plt es lc r).0
  unfolding handle_append_entries
  handle_append_entries-HasVoted t now term s c pli plt es lc r le ne v =
      let f = record (become_follower now term c r) { log = splice (or_else pli 0) es r.log } in
      ground (arith, follow_commit-SameElection (or_else lc 0) f)

  dispatch-HasVoted :
      (t now : ℕ) (s : String) (m : Message C) (b : Body C) (r : Raft C)
      → m.term ≤ r.current_term
      → ((pli plt : Option ℕ) (es : List (LogEntry C)) (lc : Option ℕ)
          → b ≡ append_entries pli plt es lc
          → m.term ≢ t)
      → HasVoted t s r
      → HasVoted t s (dispatch now m b r).0
  unfolding dispatch
  dispatch-HasVoted t now s m (vote_request lli llt) r le ne v =
      handle_vote_request-HasVoted t now m.term s m.sender_id lli llt r le v
  dispatch-HasVoted t now s m (append_entries pli plt es lc) r le ne v =
      handle_append_entries-HasVoted t now m.term s m.sender_id pli plt es lc r le
        (ne pli plt es lc refl) v
  dispatch-HasVoted t now s m vote_response r le ne v = v
  dispatch-HasVoted t now s m append_entries_response r le ne v = v
  dispatch-HasVoted t now s m other r le ne v = v

  pub handle_message-HasVoted :
      (t now : ℕ) (s : String) (m : Message C) (r : Raft C)
      → NotAppendAt t m
      → HasVoted t s r
      → HasVoted t s (handle_message now m r).0
  unfolding handle_message
  handle_message-HasVoted t now s m r ne v =
      dispatch-HasVoted t now s m m.body (observe_term m.term r)
        (unfold observe_term in ground arith) ne (observe_term-HasVoted t m.term s r v)
