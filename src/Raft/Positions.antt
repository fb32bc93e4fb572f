-- ===== src/Raft/Positions.antt =====
-- consensus/raft.py: the positions that a leader sends from (`next_index`) in every run of the node.
use tugas3_sinkronisasi_dist.Common.{
  if◌then◌else◌, ℕ, zero, suc, ◌+◌, ◌-◌, ◌≤◌, String, Bool, true, false, ◌&&◌, Option, List, [],
  ◌∷◌, ◌≡◌, refl, inl, inr, arith, ltb, leb, Bool-cases, or_else, string_eq, nat_eq, min, max,
  length, lookup, insert, lookup-insert, Dict,
}
use tugas3_sinkronisasi_dist.Raft.{
  LogEntry, Peer, Body, vote_request, vote_response, append_entries, append_entries_response, other,
  Message, Reply, Raft, init, try_advance_commit, is_leader, is_candidate_state, advance_round,
  advance_rounds, quorum_size,
}
use tugas3_sinkronisasi_dist.Raft.Handlers.{
  handle_append_entries, handle_vote_request, follow_commit, become_follower, splice,
  handle_message, observe_term, dispatch, index_peers, become_leader, begin_election,
  finish_election, count_votes, record_match, process_ae_resp, propose, propose_timeout,
}
use tugas3_sinkronisasi_dist.Raft.Events.{
  Event, message, election_timeout, votes, ae_response, proposal, expiry, step, run, proposed,
}
use tugas3_sinkronisasi_dist.Raft.Apply.{apply_committed-SameLog}

-- Positions start at 1, the place of the first log entry.
pub IsPositive : Dict String ℕ → Type 0
IsPositive d = (pid : String) → 1 ≤ or_else (lookup pid d) 1

insert-IsPositive :
    (pid : String) (n : ℕ) (d : Dict String ℕ) → 1 ≤ n → IsPositive d → IsPositive (insert pid n d)
unfolding IsPositive
insert-IsPositive pid n d le h q = ground (arith, lookup-insert pid q n d, h q)

index_peers-IsPositive :
    (n : ℕ) (ps : List Peer) (d : Dict String ℕ)
    → 1 ≤ n
    → IsPositive d
    → IsPositive (index_peers n ps d)
unfolding index_peers
index_peers-IsPositive n [] d le h = h
index_peers-IsPositive n (p ∷ ps) d le h =
    index_peers-IsPositive n ps (insert p.node_id n d) le (insert-IsPositive p.node_id n d le h)

module _ {C : Type 0} where
  advance_rounds-next_index :
      (k n : ℕ) (r : Raft C) → (advance_rounds k n r).next_index ≡ r.next_index
  unfolding advance_rounds advance_round
  advance_rounds-next_index zero n r = refl
  advance_rounds-next_index (suc k) n r = ground (
    arith,
    apply_committed-SameLog (record r { commit_index = n }),
    advance_rounds-next_index k (n + 1) (advance_round n r),
  )

  try_advance_commit-next_index : (r : Raft C) → (try_advance_commit r).next_index ≡ r.next_index
  unfolding try_advance_commit
  try_advance_commit-next_index r =
      ground
        (arith, advance_rounds-next_index (length r.log - r.commit_index) (r.commit_index + 1) r)

  record_match-IsPositive :
      (pid : String) (pli : ℕ) (es : List (LogEntry C)) (r : Raft C)
      → IsPositive r.next_index
      → IsPositive (record_match pid pli es r).next_index
  unfolding record_match
  record_match-IsPositive pid pli [] r h = h
  record_match-IsPositive pid pli (e ∷ es) r h =
      insert-IsPositive pid _ r.next_index (omega arith) h

  process_ae_resp-IsPositive :
      (pid : String) (pli : ℕ) (es : List (LogEntry C)) (term : Option ℕ) (success : Bool)
      (r : Raft C)
      → IsPositive r.next_index
      → IsPositive (process_ae_resp pid pli es term success r).next_index
  unfolding process_ae_resp
  process_ae_resp-IsPositive pid pli es term success r h =
      elim (Bool-cases (ltb r.current_term (or_else term 0))) [
        | inl newer ↦ rw newer h
        | inr old ↦
            rw old
              (elim success
                as (λ b.
                  IsPositive
                    (if b then try_advance_commit (record_match pid pli es r) else record r {
                      next_index =
                          insert pid (max 1 (or_else (lookup pid r.next_index) 1 - 1)) r.next_index;
                    }).next_index) [
                      | true ↦
                          rw (try_advance_commit-next_index (record_match pid pli es r))
                            (record_match-IsPositive pid pli es r h)
                      | false ↦ insert-IsPositive pid _ r.next_index (omega arith) h
                    ])
      ]

  follow_commit-next_index : (lc : ℕ) (r : Raft C) → (follow_commit lc r).next_index ≡ r.next_index
  unfolding follow_commit
  follow_commit-next_index lc r =
      ground (arith, apply_committed-SameLog (record r { commit_index = min lc (length r.log) }))

  dispatch-next_index :
      (now : ℕ) (m : Message C) (b : Body C) (r : Raft C)
      → (dispatch now m b r).0.next_index ≡ r.next_index
  unfolding dispatch handle_vote_request handle_append_entries
  dispatch-next_index now m (vote_request lli llt) r = ground arith
  dispatch-next_index now m (append_entries pli plt es lc) r =
      let f = record (become_follower now m.term m.sender_id r) {
        log = splice (or_else pli 0) es r.log;
      } in
      ground (arith, follow_commit-next_index (or_else lc 0) f)
  dispatch-next_index now m vote_response r = refl
  dispatch-next_index now m append_entries_response r = refl
  dispatch-next_index now m other r = refl

  handle_message-next_index :
      (now : ℕ) (m : Message C) (r : Raft C) → (handle_message now m r).0.next_index ≡ r.next_index
  unfolding handle_message observe_term
  handle_message-next_index now m r =
      ground (arith, dispatch-next_index now m m.body (observe_term m.term r))

  become_leader-IsPositive :
      (r : Raft C) → IsPositive r.next_index → IsPositive (become_leader r).next_index
  unfolding become_leader
  become_leader-IsPositive r h = index_peers-IsPositive _ r.peers r.next_index (omega arith) h

  finish_election-IsPositive :
      (responses : Dict String (Option Reply)) (r : Raft C)
      → IsPositive r.next_index
      → IsPositive (finish_election responses r).next_index
  unfolding finish_election
  finish_election-IsPositive responses r h =
      elim (is_candidate_state r.state && leb (quorum_size r) (1 + count_votes responses))
        as (λ b. IsPositive (if b then become_leader r else r).next_index) [
          | true ↦ become_leader-IsPositive r h
          | false ↦ h
        ]

  propose-IsPositive :
      (ticket : ℕ) (command : C) (r : Raft C)
      → IsPositive r.next_index
      → IsPositive (proposed (propose ticket command r) r).next_index
  unfolding propose
  propose-IsPositive ticket command r h = elim (Bool-cases (is_leader r)) [
    | inl lead ↦ rw lead h
    | inr not_lead ↦ rw not_lead h
  ]

  step-IsPositive :
      (e : Event C) (r : Raft C) → IsPositive r.next_index → IsPositive (step e r).next_index
  unfolding step begin_election propose_timeout
  step-IsPositive (message now m) r h = rw (handle_message-next_index now m r) h
  step-IsPositive election_timeout r h = h
  step-IsPositive (votes responses) r h = finish_election-IsPositive responses r h
  step-IsPositive (ae_response pid pli es term success) r h =
      process_ae_resp-IsPositive pid pli es term success r h
  step-IsPositive (proposal ticket command) r h = propose-IsPositive ticket command r h
  step-IsPositive (expiry ticket index) r h = h

  run_keeps_IsPositive :
      (es : List (Event C)) (r : Raft C)
      → IsPositive r.next_index
      → IsPositive (run es r).next_index
  unfolding run
  run_keeps_IsPositive [] r h = h
  run_keeps_IsPositive (e ∷ es) r h = run_keeps_IsPositive es (step e r) (step-IsPositive e r h)

  -- Whatever happens to a new node, the position that it sends from to a peer is at least 1.
  pub run-IsPositive :
      (es : List (Event C)) (node_id : String) (peers : List Peer) (now : ℕ)
      → IsPositive (run es (init node_id peers now)).next_index
  unfolding IsPositive init
  run-IsPositive es node_id peers now =
      run_keeps_IsPositive es (init node_id peers now) (λ pid. unfold lookup in omega arith)
