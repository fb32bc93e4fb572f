-- ===== src/Raft/Election.antt =====
-- consensus/raft.py: who may lead. `_start_election` needs the votes of a quorum, two quorums share a
-- voter, and a vote that is taken back lets two candidates have one node's vote in one term.
use tugas3_sinkronisasi_dist.Common.{
  if◌then◌else◌, ℕ, suc, ◌+◌, ◌≤◌, String, true, Option, none, some, List, [], ◌∷◌, ◌≡◌, ◌≢◌, refl,
  ◌↔◌, ◌⊎◌, inl, inr, arith, Bool-cases, string_eq, ◌==◌, length, Dict, beq_eq, beq_refl, sym,
  subst,
}
use tugas3_sinkronisasi_dist.Raft.{
  candidate, leader, append_entries, Message, Reply, Raft, quorum_size,
}
use tugas3_sinkronisasi_dist.Raft.Handlers.{
  handle_message, dispatch, observe_term, finish_election, become_leader, count_votes, granted,
}
use tugas3_sinkronisasi_dist.Raft.Terms.{handle_message_term}
use tugas3_sinkronisasi_dist.Raft.Append.{append_frees_vote, handle_message-heartbeat-log}
use tugas3_sinkronisasi_dist.Raft.Votes.{request, IsUpToDate, granted_iff}

-- The members of the cluster whose vote in a term is `c`.
unfoldable pub voters_for : String → (String → Option String) → List String → ℕ
voters_for c vote [] = 0
voters_for c vote (m ∷ ms) =
    let n = voters_for c vote ms in
    elim (vote m) [ none ↦ n | some v ↦ if v == c then n + 1 else n ]

voters_for_disjoint :
    (a b : String) (vote : String → Option String) (ms : List String)
    → a ≢ b
    → voters_for a vote ms + voters_for b vote ms ≤ length ms
unfolding voters_for
voters_for_disjoint a b vote [] ne = omega arith
voters_for_disjoint a b vote (m ∷ ms) ne =
    let rest = voters_for_disjoint a b vote ms ne in go (vote m) refl rest
  where
    go :
        (o : Option String)
        → vote m ≡ o
        → voters_for a vote ms + voters_for b vote ms ≤ length ms
        → voters_for a vote (m ∷ ms) + voters_for b vote (m ∷ ms) ≤ suc (length ms)
    go none e rest = rw (e, voters_for) (omega arith)
    go (some v) e rest = rw (e, voters_for) (ground (arith, beq_eq v a, beq_eq v b))

module _ {C : Type 0} where
  -- Two candidates that a quorum has voted for are one, since every member has one vote.
  pub quorums_meet :
      (r : Raft C) (ms : List String) (vote : String → Option String) (a b : String)
      → length ms ≡ length r.peers + 1
      → quorum_size r ≤ voters_for a vote ms
      → quorum_size r ≤ voters_for b vote ms
      → a ≡ b
  quorums_meet r ms vote a b size ha hb = elim (Bool-cases (a == b)) [
    | inl same ↦ beq_eq a b same
    | inr other ↦
        let ne : a ≢ b = λ e. ground (arith, beq_refl a) in
        absurd (omega (arith, voters_for_disjoint a b vote ms ne))
  ]

  -- A node that counts the votes leads exactly if it led before, or is still a candidate and has the
  -- votes of a quorum, its own among them.
  pub leads_iff_quorum :
      (responses : Dict String (Option Reply)) (r : Raft C)
      → ((finish_election responses r).state ≡ leader) ↔ (
          (r.state ≡ leader)
          ⊎ ((r.state ≡ candidate) × (quorum_size r ≤ 1 + count_votes responses)))
  unfolding finish_election become_leader
  leads_iff_quorum responses r = (λ h. ground arith, λ h. ground arith)

  -- After an AppendEntries of its own term with no entries, a node grants its vote of that term to
  -- any candidate whose log is not behind, whomever it voted for before.
  pub append_allows_second_vote :
      (now now' : ℕ) (r : Raft C) (l s : String) (pli plt lc idx last : ℕ)
      → IsUpToDate r.log idx last
      → granted (
          some
            (handle_message now'
              (request s r.current_term idx last)
              (handle_message now
                (record {
                  body = append_entries (some pli) (some plt) [] (some lc);
                  sender_id = l;
                  term = r.current_term;
                })
                r).0).1)
        ≡ true
  unfolding handle_message dispatch observe_term
  append_allows_second_vote now now' r l s pli plt lc idx last up =
      let m : Message C = record {
        body = append_entries (some pli) (some plt) [] (some lc);
        sender_id = l;
        term = r.current_term;
      } in
      let q = (handle_message now m r).0 in
      let free =
        append_frees_vote now r.current_term l (some pli) (some plt) [] (some lc)
          (observe_term r.current_term r) (ground arith) in
      let log = handle_message-heartbeat-log now m (some pli) (some plt) (some lc) r refl in
      let term : q.current_term ≡ r.current_term = ground (arith, handle_message_term now m r) in
      (granted_iff now' q s r.current_term idx last).1
        (inr (term, inl free), subst (λ g. IsUpToDate g idx last) (sym log) up)
