-- ===== src/Raft/Append.antt =====
-- consensus/raft.py: an AppendEntries that `_replicate_entries` builds, handled by
-- `_handle_append_entries`, makes the follower's log the leader's.
use tugas3_sinkronisasi_dist.Common.{
  if◌then◌else◌, ℕ, zero, suc, ◌-◌, ◌≤◌, ◌<◌, String, true, ◌&&◌, Option, none, some, List, [], ◌∷◌,
  ◌≡◌, refl, arith, ltb, leb, or_else, string_eq, nat_eq, min, max, length, take, drop, ap, lookup,
  take-append-drop, length-take, length-drop, get_elem?-take, ◌∙◌, le→leb,
}
use tugas3_sinkronisasi_dist.Raft.{LogEntry, Peer, Message, appended, Raft, append_entries, term_at}
use tugas3_sinkronisasi_dist.Raft.Handlers.{
  handle_append_entries, follow_commit, become_follower, prev_matches, splice, append_message,
  handle_message, observe_term, dispatch,
}
use tugas3_sinkronisasi_dist.Raft.Terms.{follow_commit-SameElection}
use tugas3_sinkronisasi_dist.Raft.Apply.{apply_committed-SameLog}

module _ {C : Type 0} where
  -- The leader's log position for a peer: what it last sent stands before it.
  abbrev pub position : Raft C → Peer → ℕ
  position r p = or_else (lookup p.node_id r.next_index) 1

  follow_commit-SameLog :
      (lc : ℕ) (r : Raft C)
      → ((follow_commit lc r).log ≡ r.log)
        × ((follow_commit lc r).commit_index
            ≡ (if ltb r.commit_index lc then min lc (length r.log) else r.commit_index))
  unfolding follow_commit
  follow_commit-SameLog lc r =
      let same = apply_committed-SameLog (record r { commit_index = min lc (length r.log) }) in
      (ground (arith, same), ground (arith, same))

  term_at-take :
      (n i : ℕ) (log : List (LogEntry C)) → 0 < i → i ≤ n → term_at (take n log) i ≡ term_at log i
  unfolding term_at
  term_at-take n i log h le = rw (get_elem?-take n (i - 1) log (omega arith), term_at)

  -- The follower's log agrees with the leader's before the peer's position.
  abbrev pub Agrees : ℕ → List (LogEntry C) → List (LogEntry C) → Type 0
  Agrees pli ours theirs = take pli ours ≡ take pli theirs

  Agrees-prev_matches :
      (pli : ℕ) (ours theirs : List (LogEntry C))
      → Agrees pli ours theirs
      → pli ≤ length theirs
      → prev_matches pli
          (if ltb 0 pli && leb pli (length theirs) then term_at theirs pli else 0)
          ours
        ≡ true
  unfolding prev_matches
  Agrees-prev_matches zero ours theirs a le = refl
  Agrees-prev_matches (suc n) ours theirs a le =
      let long : suc n ≤ length ours =
        omega (arith, ap length a, length-take (suc n) ours, length-take (suc n) theirs) in
      ground (
        arith,
        term_at-take (suc n) (suc n) ours (omega arith) (omega arith),
        term_at-take (suc n) (suc n) theirs (omega arith) (omega arith),
        a,
      )

  splice-drop :
      (pli : ℕ) (ours theirs : List (LogEntry C))
      → Agrees pli ours theirs
      → pli < length theirs
      → splice pli (drop pli theirs) ours ≡ theirs
  unfolding splice
  splice-drop pli ours theirs a lt = go (drop pli theirs) refl
    where
      go : (es : List (LogEntry C)) → drop pli theirs ≡ es → splice pli es ours ≡ theirs
      go [] e = absurd (omega (arith, ap length e, length-drop pli theirs))
      go (x ∷ es) e = rw (a, ← e) (take-append-drop pli theirs)

  observe_term-SameLog :
      (term : ℕ) (r : Raft C)
      → ((observe_term term r).log ≡ r.log)
        × ((observe_term term r).commit_index ≡ r.commit_index)
        × ((observe_term term r).node_id ≡ r.node_id)
        × ((observe_term term r).current_term ≡ max r.current_term term)
  unfolding observe_term
  observe_term-SameLog term r = ground arith

  -- What an AppendEntries that is not stale does, if the entry before the new ones is there.
  pub handle_append_entries-matching :
      (now term : ℕ) (s : String) (pli plt lc : ℕ) (es : List (LogEntry C)) (r : Raft C)
      → r.current_term ≤ term
      → prev_matches pli plt r.log ≡ true
      → ((handle_append_entries now term s (some pli) (some plt) es (some lc) r).0.log
          ≡ splice pli es r.log)
        × ((handle_append_entries now term s (some pli) (some plt) es (some lc) r).1
            ≡ appended term true r.node_id)
        × ((handle_append_entries now term s (some pli) (some plt) es (some lc) r).0.commit_index
            ≡ (if ltb r.commit_index lc
                then min lc (length (splice pli es r.log))
                else r.commit_index))
  unfolding handle_append_entries
  handle_append_entries-matching now term s pli plt lc es r h matches =
      let f = record (become_follower now term s r) { log = splice pli es r.log } in
      let same = follow_commit-SameLog lc f in
      (ground (arith, same), ground arith, ground (arith, same))

  -- Let a leader build an AppendEntries for a peer whose position is at least 1 and not beyond the end of
  -- the leader's log, while the leader's commit index lies in its log. Let a follower whose term is not
  -- greater than the leader's and whose log has the same entries before the position handle it. Then the
  -- follower's log becomes the leader's, it answers that it has appended, and its commit index becomes the
  -- greater of both.
  pub append_replicates :
      (now : ℕ) (l f : Raft C) (p : Peer)
      → 1 ≤ position l p
      → position l p ≤ length l.log
      → l.commit_index ≤ length l.log
      → f.current_term ≤ l.current_term
      → Agrees (position l p - 1) f.log l.log
      → ((handle_message now (append_message l p) f).0.log ≡ l.log)
        × ((handle_message now (append_message l p) f).1 ≡ appended l.current_term true f.node_id)
        × ((handle_message now (append_message l p) f).0.commit_index
            ≡ max f.commit_index l.commit_index)
  unfolding append_message handle_message dispatch
  append_replicates now l f p pos le inside term agree =
      let pli = position l p - 1 in
      let r = observe_term l.current_term f in
      let same = observe_term-SameLog l.current_term f in
      let agree' : Agrees pli r.log l.log = rw (same.0) agree in
      let spliced = splice-drop pli r.log l.log agree' (omega arith) in
      let plt = (if ltb 0 pli && leb pli (length l.log) then term_at l.log pli else 0) in
      let facts =
        handle_append_entries-matching now l.current_term l.node_id pli plt l.commit_index
          (drop pli l.log) r (omega (arith, same.3))
          (Agrees-prev_matches pli r.log l.log agree' (omega arith)) in
      let committed : (if ltb r.commit_index l.commit_index
            then min l.commit_index (length (splice pli (drop pli l.log) r.log))
            else r.commit_index)
          ≡ max f.commit_index l.commit_index =
        rw spliced (ground (arith, same)) in
      rw (le→leb (position l p) (length l.log) le)
        (facts.0 ∙ spliced, facts.1 ∙ ap (appended l.current_term true) same.2, facts.2 ∙ committed)

  -- An AppendEntries that is not stale takes back the vote that the node has given.
  pub append_frees_vote :
      (now term : ℕ) (s : String) (pli plt : Option ℕ) (es : List (LogEntry C)) (lc : Option ℕ)
      → (r : Raft C) → r.current_term ≤ term
      → (handle_append_entries now term s pli plt es lc r).0.voted_for ≡ none
  unfolding handle_append_entries
  append_frees_vote now term s pli plt es lc r le =
      let f = record (become_follower now term s r) { log = splice (or_else pli 0) es r.log } in
      ground (arith, follow_commit-SameElection (or_else lc 0) f)

  -- With no entries, an AppendEntries leaves the log alone.
  pub handle_message-heartbeat-log :
      (now : ℕ) (m : Message C) (pli plt lc : Option ℕ) (r : Raft C)
      → m.body ≡ append_entries pli plt [] lc
      → (handle_message now m r).0.log ≡ r.log
  unfolding handle_message handle_append_entries observe_term
  handle_message-heartbeat-log now m pli plt lc r e =
      let o = observe_term m.term r in
      let f = record (become_follower now m.term m.sender_id o) {
        log = splice (or_else pli 0) [] o.log;
      } in
      rw e (unfold dispatch splice in ground (arith, follow_commit-SameLog (or_else lc 0) f))
