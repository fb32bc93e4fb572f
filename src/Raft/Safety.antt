-- ===== src/Raft/Safety.antt =====
-- consensus/raft.py: what the commit callbacks have been given in every run of the node, as long as no
-- AppendEntries replaces entries that are committed.
use tugas3_sinkronisasi_dist.Common.{
  if◌then◌else◌, ℕ, ◌+◌, ◌≤◌, ◌<◌, String, Bool, true, false, Option, some, List, [], ◌∷◌, ◌≡◌,
  refl, inl, inr, arith, ltb, leb, Bool-cases, or_else, string_eq, nat_eq, min, length, take,
  length-append, length-take, take-append_of_le, take-take_of_le, sym, ◌∙◌,
}
use tugas3_sinkronisasi_dist.Raft.{
  LogEntry, Peer, Body, vote_request, vote_response, append_entries, append_entries_response, other,
  Message, Raft, init, try_advance_commit, is_leader,
}
use tugas3_sinkronisasi_dist.Raft.Handlers.{
  handle_append_entries, handle_vote_request, follow_commit, become_follower, prev_matches, splice,
  handle_message, observe_term, dispatch, become_leader, begin_election, finish_election,
  record_match, process_ae_resp, propose, propose_timeout,
}
use tugas3_sinkronisasi_dist.Raft.Events.{
  Event, message, election_timeout, votes, ae_response, proposal, expiry, step, run, proposed,
}
use tugas3_sinkronisasi_dist.Raft.Append.{handle_append_entries-matching}
use tugas3_sinkronisasi_dist.Raft.Apply.{IsApplied, apply_committed_lem, try_advance_commit_lem}

module _ {C : Type 0} where
  follow_commit-IsApplied : (lc : ℕ) (r : Raft C) → IsApplied r → IsApplied (follow_commit lc r)
  unfolding follow_commit
  follow_commit-IsApplied lc r v = elim (Bool-cases (ltb r.commit_index lc)) [
    | inl newer ↦
        rw newer
          (apply_committed_lem (record r { commit_index = min lc (length r.log) })
            (record {
              given = v.given;
              behind = ground (arith, v.behind, v.inside);
              inside = omega arith;
            })).0
    | inr same ↦ rw same v
  ]

  -- The entries that an AppendEntries brings stand behind the committed ones.
  abbrev pub KeepsCommitted : ℕ → List (LogEntry C) → Raft C → Type 0
  KeepsCommitted pli [] r = Unit
  KeepsCommitted pli (e ∷ es) r = r.commit_index ≤ pli

  splice-IsApplied :
      (pli : ℕ) (es : List (LogEntry C)) (r : Raft C)
      → KeepsCommitted pli es r
      → pli ≤ length r.log
      → IsApplied r
      → IsApplied (record r { log = splice pli es r.log })
  unfolding splice
  splice-IsApplied pli [] r k le v = record {
    given = v.given;
    behind = v.behind;
    inside = v.inside;
  }
  splice-IsApplied pli (e ∷ es) r k le v =
      let n = length-take pli r.log in
      record {
        given =
            v.given
            ∙ sym (
                take-append_of_le r.last_applied (take pli r.log) (e ∷ es)
                  (omega (arith, n, v.behind))
                ∙ take-take_of_le r.last_applied pli r.log (omega (arith, v.behind)));
        behind = v.behind;
        inside = omega (arith, n, length-append (take pli r.log) (e ∷ es));
      }

  prev_matches-le :
      (pli plt : ℕ) (log : List (LogEntry C)) → prev_matches pli plt log ≡ true → pli ≤ length log
  unfolding prev_matches
  prev_matches-le pli plt log h = ground arith

  handle_append_entries-IsApplied :
      (now term : ℕ) (s : String) (pli plt : Option ℕ) (es : List (LogEntry C)) (lc : Option ℕ)
      → (r : Raft C) → KeepsCommitted (or_else pli 0) es r
      → IsApplied r
      → IsApplied (handle_append_entries now term s pli plt es lc r).0
  unfolding handle_append_entries
  handle_append_entries-IsApplied now term s pli plt es lc r k v =
      elim (Bool-cases (leb r.current_term term)) [
        | inr stale ↦ rw stale v
        | inl fresh ↦ elim (Bool-cases (prev_matches (or_else pli 0) (or_else plt 0) r.log)) [
          | inr no_match ↦
              rw (fresh, no_match)
                (record { given = v.given; behind = v.behind; inside = v.inside })
          | inl matches ↦
              let w =
                splice-IsApplied (or_else pli 0) es r k
                  (prev_matches-le (or_else pli 0) (or_else plt 0) r.log matches) v in
              rw (fresh, matches)
                (follow_commit-IsApplied (or_else lc 0)
                  (record (become_follower now term s r) { log = splice (or_else pli 0) es r.log })
                  (record { given = w.given; behind = w.behind; inside = w.inside }))
        ]
      ]

  dispatch-IsApplied :
      (now : ℕ) (m : Message C) (b : Body C) (r : Raft C)
      → ((pli plt lc : Option ℕ) (es : List (LogEntry C))
          → b ≡ append_entries pli plt es lc
          → KeepsCommitted (or_else pli 0) es r)
      → IsApplied r
      → IsApplied (dispatch now m b r).0
  unfolding dispatch handle_vote_request
  dispatch-IsApplied now m (vote_request lli llt) r k v = record {
    given = ground (arith, v.given);
    behind = ground (arith, v.behind);
    inside = ground (arith, v.inside);
  }
  dispatch-IsApplied now m (append_entries pli plt es lc) r k v =
      handle_append_entries-IsApplied now m.term m.sender_id pli plt es lc r (k pli plt lc es refl)
        v
  dispatch-IsApplied now m vote_response r k v = v
  dispatch-IsApplied now m append_entries_response r k v = v
  dispatch-IsApplied now m other r k v = v

  -- An AppendEntries event brings no entries before the committed ones.
  abbrev pub SparesCommitted : Event C → Raft C → Type 0
  SparesCommitted (message now m) r =
      (pli plt lc : Option ℕ) (es : List (LogEntry C))
      → m.body ≡ append_entries pli plt es lc
      → KeepsCommitted (or_else pli 0) es (observe_term m.term r)
  SparesCommitted _ r = Unit

  observe_term-IsApplied : (term : ℕ) (r : Raft C) → IsApplied r → IsApplied (observe_term term r)
  unfolding observe_term
  observe_term-IsApplied term r v = elim (Bool-cases (ltb r.current_term term)) [
    | inl newer ↦ rw newer (record { given = v.given; behind = v.behind; inside = v.inside })
    | inr same ↦ rw same v
  ]

  handle_message-IsApplied :
      (now : ℕ) (m : Message C) (r : Raft C)
      → SparesCommitted (message now m) r
      → IsApplied r
      → IsApplied (handle_message now m r).0
  unfolding handle_message
  handle_message-IsApplied now m r k v =
      dispatch-IsApplied now m m.body (observe_term m.term r) k (observe_term-IsApplied m.term r v)

  record_match-IsApplied :
      (pid : String) (pli : ℕ) (es : List (LogEntry C)) (r : Raft C)
      → IsApplied r
      → IsApplied (record_match pid pli es r)
  unfolding record_match
  record_match-IsApplied pid pli [] r v = v
  record_match-IsApplied pid pli (e ∷ es) r v = record {
    given = v.given;
    behind = v.behind;
    inside = v.inside;
  }

  try_advance_commit-IsApplied : (r : Raft C) → IsApplied r → IsApplied (try_advance_commit r)
  try_advance_commit-IsApplied r v = elim (Bool-cases (is_leader r)) [
    | inl lead ↦ (try_advance_commit_lem r v lead).0
    | inr not_lead ↦ unfold try_advance_commit in rw not_lead v
  ]

  process_ae_resp-IsApplied :
      (pid : String) (pli : ℕ) (es : List (LogEntry C)) (term : Option ℕ) (success : Bool)
      (r : Raft C)
      → IsApplied r
      → IsApplied (process_ae_resp pid pli es term success r)
  unfolding process_ae_resp
  process_ae_resp-IsApplied pid pli es term true r v =
      elim (Bool-cases (ltb r.current_term (or_else term 0))) [
        | inl newer ↦ rw newer (record { given = v.given; behind = v.behind; inside = v.inside })
        | inr old ↦ rw old (
            try_advance_commit-IsApplied (record_match pid pli es r)
              (record_match-IsApplied pid pli es r v))
      ]
  process_ae_resp-IsApplied pid pli es term false r v = record {
    given = ground (arith, v.given);
    behind = ground (arith, v.behind);
    inside = ground (arith, v.inside);
  }

  propose-IsApplied :
      (ticket : ℕ) (command : C) (r : Raft C)
      → IsApplied r
      → IsApplied (proposed (propose ticket command r) r)
  unfolding propose
  propose-IsApplied ticket command r v = elim (Bool-cases (is_leader r)) [
    | inl lead ↦
        let e : LogEntry C = record {
          term = r.current_term;
          index = length r.log + 1;
          command = command;
        } in
        rw lead (record {
          given =
              v.given
              ∙ sym (
                  take-append_of_le r.last_applied r.log (e ∷ [])
                    (omega (arith, v.behind, v.inside)));
          behind = v.behind;
          inside = omega (arith, v.inside, length-append r.log (e ∷ []));
        })
    | inr not_lead ↦ rw not_lead v
  ]

  step-IsApplied :
      (e : Event C) (r : Raft C) → SparesCommitted e r → IsApplied r → IsApplied (step e r)
  unfolding step begin_election finish_election become_leader propose_timeout
  step-IsApplied (message now m) r k v = handle_message-IsApplied now m r k v
  step-IsApplied election_timeout r k v = record {
    given = v.given;
    behind = v.behind;
    inside = v.inside;
  }
  step-IsApplied (votes responses) r k v = record {
    given = ground (arith, v.given);
    behind = ground (arith, v.behind);
    inside = ground (arith, v.inside);
  }
  step-IsApplied (ae_response pid pli es term success) r k v =
      process_ae_resp-IsApplied pid pli es term success r v
  step-IsApplied (proposal ticket command) r k v = propose-IsApplied ticket command r v
  step-IsApplied (expiry ticket index) r k v = record {
    given = v.given;
    behind = v.behind;
    inside = v.inside;
  }

  -- Every event of a run spares what is committed when it comes.
  abbrev pub AllSpareCommitted : List (Event C) → Raft C → Type 0
  AllSpareCommitted [] r = Unit
  AllSpareCommitted (e ∷ es) r = SparesCommitted e r × AllSpareCommitted es (step e r)

  pub run-IsApplied :
      (es : List (Event C)) (r : Raft C)
      → AllSpareCommitted es r
      → IsApplied r
      → IsApplied (run es r)
  unfolding run
  run-IsApplied [] r k v = v
  run-IsApplied (e ∷ es) r k v = run-IsApplied es (step e r) k.1 (step-IsApplied e r k.0 v)

  pub init-IsApplied :
      (node_id : String) (peers : List Peer) (now : ℕ) → IsApplied (init {C = C} node_id peers now)
  unfolding init
  init-IsApplied node_id peers now = record {
    given = refl;
    behind = omega arith;
    inside = omega arith;
  }

  -- An AppendEntries of the node's term that is accepted at `pli` and whose entries end before the
  -- commit index, as a delayed one does, and whose own commit index is at most the node's, leaves a log
  -- shorter than what the node has committed.
  pub truncation_loses_committed :
      (now : ℕ) (r : Raft C) (s : String) (pli plt lc : ℕ) (e : LogEntry C) (es : List (LogEntry C))
      → prev_matches pli plt r.log ≡ true
      → pli + length (e ∷ es) < r.commit_index
      → lc ≤ r.commit_index
      → length
          (handle_append_entries now r.current_term s
            (some pli)
            (some plt)
            (e ∷ es)
            (some lc)
            r).0.log
        < (handle_append_entries now r.current_term s
            (some pli)
            (some plt)
            (e ∷ es)
            (some lc)
            r).0.commit_index
  truncation_loses_committed now r s pli plt lc e es matches short le =
      let (log, reply, commit) =
        handle_append_entries-matching now r.current_term s pli plt lc (e ∷ es) r (omega arith)
          matches in
      let kept : (if ltb r.commit_index lc
            then min lc (length (splice pli (e ∷ es) r.log))
            else r.commit_index)
          ≡ r.commit_index =
        ground arith in
      rw (log, commit ∙ kept)
        (unfold splice in
          omega (arith, length-append (take pli r.log) (e ∷ es), length-take pli r.log))
