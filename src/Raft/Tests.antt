-- ===== src/Raft/Tests.antt =====
-- consensus/raft.py: runs of a small cluster, and the theorems at concrete nodes.
use tugas3_sinkronisasi_dist.Common.{
  ℕ, ◌<◌, String, true, none, some, List, [], ◌∷◌, ◌≡◌, refl, inr, arith, length, lookup, insert,
  pop, max, take, string_eq, none_or_eq,
}
use tugas3_sinkronisasi_dist.Raft.{
  leader, LogEntry, Peer, vote, appended, append_entries, Raft, init, term_at, last_term,
  apply_committed, apply_rounds, try_advance_commit, advance_rounds, advance_round, count_matching,
}
use tugas3_sinkronisasi_dist.Raft.Handlers.{
  handle_message, dispatch, observe_term, handle_vote_request, handle_append_entries, prev_matches,
  splice, follow_commit, begin_election, finish_election, become_leader, index_peers,
  append_message, propose, propose_timeout, process_ae_resp, record_match, replicate_entries,
  count_votes, granted,
}
use tugas3_sinkronisasi_dist.Raft.Events.{
  Event, election_timeout, votes, ae_response, proposal, step, run,
}
use tugas3_sinkronisasi_dist.Raft.Votes.{request, one_vote_a_term}
use tugas3_sinkronisasi_dist.Raft.Apply.{IsApplied, apply_committed_lem}
use tugas3_sinkronisasi_dist.Raft.Append.{append_replicates}
use tugas3_sinkronisasi_dist.Raft.Safety.{run-IsApplied, init-IsApplied, truncation_loses_committed}
use tugas3_sinkronisasi_dist.Raft.Election.{voters_for, append_allows_second_vote}

program : Unit {0}
unfolding lookup insert pop none_or_eq init term_at last_term apply_committed apply_rounds
    try_advance_commit advance_rounds advance_round count_matching handle_message dispatch
    observe_term handle_vote_request handle_append_entries prev_matches splice follow_commit
    begin_election finish_election become_leader index_peers append_message propose propose_timeout
    process_ae_resp record_match replicate_entries count_votes step run voters_for
program = tt

abbrev peer : String → Peer
peer s = record { node_id = s; host = s; port = 8001 }

abbrev n1 : Raft ℕ
n1 = init "n1" (peer "n2" ∷ peer "n3" ∷ []) 0

abbrev n2 : Raft ℕ
n2 = init "n2" (peer "n1" ∷ peer "n3" ∷ []) 0

-- The node stands for election, is elected by one vote, takes a proposal and hears that a peer has it.
abbrev life : List (Event ℕ)
life =
    election_timeout
    ∷ votes (("n2", some (vote 1 true "n2")) ∷ ("n3", none) ∷ [])
    ∷ proposal 7 42
    ∷ []

abbrev entry : LogEntry ℕ
entry = record { term = 1; index = 1; command = 42 }

abbrev lead : Raft ℕ
lead = run life n1

leads : (lead.state ≡ leader) × (lead.log ≡ entry ∷ [])
unfolding program
leads = (refl, refl)

-- After the peer's reply the entry is committed and given to the callbacks.
commits :
    let r = run (ae_response "n2" 0 (entry ∷ []) (some 1) true ∷ []) lead in
    (r.commit_index ≡ 1) × (r.applied ≡ entry ∷ [])
unfolding program
commits = (refl, refl)

one_vote_a_term_example : ◌≡◌ {A = String} "n1" "n1"
unfolding program
one_vote_a_term_example =
    one_vote_a_term 5 6 n2 "n1" "n1" 3 0 0 0 0 (votes [] ∷ []) (omega arith) refl refl

append_allows_second_vote_example :
    let q = (handle_message 5 (request "n1" 1 0 0) n2).0 in
    granted (
      some
        (handle_message 7
          (request "n3" q.current_term 0 0)
          (handle_message 6
            (record {
              body = append_entries (some 0) (some 0) [] (some 0);
              sender_id = "n1";
              term = q.current_term;
            })
            q).0).1)
    ≡ true
unfolding program
append_allows_second_vote_example =
    append_allows_second_vote 6 7 (handle_message 5 (request "n1" 1 0 0) n2).0 "n1" "n3" 0 0 0 0 0
      (inr (refl, omega arith))

-- A node with one committed entry that the callbacks have not seen.
abbrev behind : Raft ℕ
behind = record lead { commit_index = 1 }

behind-IsApplied : IsApplied behind
unfolding program
behind-IsApplied = record { given = refl; behind = omega arith; inside = omega arith }

apply_committed_lem_example :
    IsApplied (apply_committed behind)
    × ((apply_committed behind).last_applied ≡ behind.commit_index)
    × ((apply_committed behind).applied ≡ take behind.commit_index behind.log)
apply_committed_lem_example = apply_committed_lem behind behind-IsApplied

abbrev matched : Raft ℕ
matched = record_match "n2" 0 (entry ∷ []) lead

append_replicates_example :
    ((handle_message 9 (append_message lead (peer "n2")) n2).0.log ≡ lead.log)
    × ((handle_message 9 (append_message lead (peer "n2")) n2).1
        ≡ appended lead.current_term true n2.node_id)
    × ((handle_message 9 (append_message lead (peer "n2")) n2).0.commit_index
        ≡ max n2.commit_index lead.commit_index)
unfolding program
append_replicates_example =
    append_replicates 9 lead n2 (peer "n2") (omega arith) (omega arith) (omega arith) (omega arith)
      refl

run-IsApplied_example : IsApplied (run life n1)
run-IsApplied_example =
    run-IsApplied life n1 (tt, (tt, (tt, tt))) (init-IsApplied "n1" (peer "n2" ∷ peer "n3" ∷ []) 0)

-- A follower with two committed entries hears a delayed message that holds only the first.
abbrev two : Raft ℕ
two = record n2 {
  current_term = 1;
  log = entry ∷ record entry { index = 2 } ∷ [];
  commit_index = 2;
}

truncation_loses_committed_example :
    length (handle_append_entries 9 1 "n1" (some 0) (some 0) (entry ∷ []) (some 0) two).0.log
    < (handle_append_entries 9 1 "n1" (some 0) (some 0) (entry ∷ []) (some 0) two).0.commit_index
unfolding program
truncation_loses_committed_example =
    truncation_loses_committed 9 two "n1" 0 0 0 entry [] refl (omega arith) (omega arith)
