-- ===== src/Raft/Handlers.antt =====
-- consensus/raft.py: the handlers of `RaftConsensus`, elections, replication and `propose`.
use tugas3_sinkronisasi_dist.Common.{
  ℕ, ◌+◌, ◌-◌, min, max, String, Bool, true, false, ◌&&◌, ◌||◌, Option, none, some, List, [], ◌∷◌,
  ◌++◌, map, ltb, leb, if◌then◌else◌, or_else, ◌==◌, nat_eq, string_eq, none_or_eq, length, take,
  drop, Dict, lookup, insert, pop,
}
use tugas3_sinkronisasi_dist.Raft.{
  follower, candidate, leader, LogEntry, Peer, Body, vote_request, vote_response, append_entries,
  append_entries_response, other, Message, Reply, vote, appended, status_ok, unhandled, running,
  waiting, dropped, Raft, is_candidate_state, cancel, is_leader, quorum_size, last_term, term_at,
  apply_committed, try_advance_commit,
}

-- `d[peer["node_id"]] = i` for every peer
unfoldable pub index_peers : ℕ → List Peer → Dict String ℕ → Dict String ℕ
index_peers i [] d = d
index_peers i (p ∷ ps) d = index_peers i ps (insert p.node_id i d)

module _ {C : Type 0} where
  -- The head of `handle_message`: a newer term makes the node a follower with no vote.
  unfoldable pub observe_term : ℕ → Raft C → Raft C
  observe_term term r =
      if ltb r.current_term term
      then record r {
        current_term = term;
        state = follower;
        voted_for = none;
        leader_id = none;
        heartbeat_task = cancel r.heartbeat_task;
      }
      else r

  -- The candidate's log is at least as new as ours.
  abbrev pub up_to_date : ℕ → ℕ → Raft C → Bool
  up_to_date c_idx c_term r =
      let last_idx = length r.log in
      let last = last_term r.log in ltb last c_term || (c_term == last && leb last_idx c_idx)

  unfoldable pub handle_vote_request :
      (now term : ℕ) (sender_id : String) (last_log_index last_log_term : Option ℕ)
      → Raft C
      → Raft C × Reply
  handle_vote_request now term sender_id lli llt r =
      if leb r.current_term term
        && (none_or_eq r.voted_for sender_id && up_to_date (or_else lli 0) (or_else llt 0) r)
      then (
        record r { voted_for = some sender_id; current_term = term; last_heartbeat = now },
        vote term true r.node_id,
      )
      else (r, vote r.current_term false r.node_id)

  -- `success` of `_handle_append_entries`: the entry before the new ones is there.
  unfoldable pub prev_matches : (pli plt : ℕ) → List (LogEntry C) → Bool
  prev_matches pli plt log =
      if pli == 0 then true else leb pli (length log) && term_at log pli == plt

  -- `self.log = self.log[:pli]`, then the new entries, if there are any.
  unfoldable pub splice : ℕ → List (LogEntry C) → List (LogEntry C) → List (LogEntry C)
  splice pli [] log = log
  splice pli (e ∷ es) log = take pli log ++ e ∷ es

  unfoldable pub follow_commit : ℕ → Raft C → Raft C
  follow_commit lc r =
      if ltb r.commit_index lc
      then apply_committed (record r { commit_index = min lc (length r.log) })
      else r

  abbrev pub become_follower : (now term : ℕ) (sender_id : String) → Raft C → Raft C
  become_follower now term sender_id r = record r {
    current_term = term;
    state = follower;
    leader_id = some sender_id;
    voted_for = none;
    last_heartbeat = now;
    heartbeat_task = none;
  }

  unfoldable pub handle_append_entries :
      (now term : ℕ) (sender_id : String) (pli plt : Option ℕ) (entries : List (LogEntry C))
      → (leader_commit : Option ℕ) → Raft C
      → Raft C × Reply
  handle_append_entries now term sender_id pli plt entries lc r =
      if leb r.current_term term
      then (let f = become_follower now term sender_id r in
          if prev_matches (or_else pli 0) (or_else plt 0) r.log
          then (
            follow_commit (or_else lc 0) (record f { log = splice (or_else pli 0) entries r.log }),
            appended term true r.node_id,
          )
          else (f, appended term false r.node_id))
      else (r, appended r.current_term false r.node_id)

  unfoldable pub dispatch : ℕ → Message C → Body C → Raft C → Raft C × Reply
  dispatch now m (vote_request lli llt) r = handle_vote_request now m.term m.sender_id lli llt r
  dispatch now m (append_entries pli plt entries lc) r =
      handle_append_entries now m.term m.sender_id pli plt entries lc r
  dispatch now m vote_response r = (r, status_ok)
  dispatch now m append_entries_response r = (r, status_ok)
  dispatch now m other r = (r, unhandled)

  unfoldable pub handle_message : ℕ → Message C → Raft C → Raft C × Reply
  handle_message now m r = dispatch now m m.body (observe_term m.term r)

  -- `_start_election` up to its broadcast.
  unfoldable pub begin_election : Raft C → Raft C × Message C
  begin_election r =
      let term = r.current_term + 1 in
      (
        record r {
          current_term = term;
          state = candidate;
          voted_for = some r.node_id;
          leader_id = none;
        },
        record {
          body = vote_request (some (length r.log)) (some (last_term r.log));
          sender_id = r.node_id;
          term = term;
        },
      )

  unfoldable pub become_leader : Raft C → Raft C
  become_leader r = record r {
    state = leader;
    leader_id = some r.node_id;
    next_index = index_peers (length r.log + 1) r.peers r.next_index;
    match_index = index_peers 0 r.peers r.match_index;
    heartbeat_task = some running;
  }

  -- What `_replicate_entries` sends to a peer.
  unfoldable pub append_message : Raft C → Peer → Message C
  append_message r p =
      let ni = or_else (lookup p.node_id r.next_index) 1 in
      let pli = ni - 1 in
      record {
        body =
            append_entries (some pli)
              (some (if ltb 0 pli && leb pli (length r.log) then term_at r.log pli else 0))
              (if leb ni (length r.log) then drop (ni - 1) r.log else []) (some r.commit_index);
        sender_id = r.node_id;
        term = r.current_term;
      }

  unfoldable pub replicate_entries : Raft C → List (Peer × Message C)
  replicate_entries r = if is_leader r then map (λ p. (p, append_message r p)) r.peers else []

  -- A successful reply to entries moves the peer's indices behind them.
  unfoldable pub record_match : String → ℕ → List (LogEntry C) → Raft C → Raft C
  record_match pid pli [] r = r
  record_match pid pli (e ∷ es) r =
      let n = length (e ∷ es) in
      record r {
        next_index = insert pid (pli + n + 1) r.next_index;
        match_index = insert pid (pli + n) r.match_index;
      }

  -- `_process_ae_resp`, of the message that was sent and the reply that came.
  unfoldable pub process_ae_resp :
      (pid : String) (prev_log_index : ℕ) (entries : List (LogEntry C))
      → (term : Option ℕ) (success : Bool) → Raft C
      → Raft C
  process_ae_resp pid pli entries term success r =
      let t = or_else term 0 in
      if ltb r.current_term t
      then record r { current_term = t; state = follower; voted_for = none }
      else if success
      then try_advance_commit (record_match pid pli entries r)
      else record r {
        next_index = insert pid (max 1 (or_else (lookup pid r.next_index) 1 - 1)) r.next_index;
      }

  -- `propose` up to its wait: the ticket names the future that is waited for.
  unfoldable pub propose :
      (ticket : ℕ) (command : C) → Raft C → Option (Raft C × List (Peer × Message C))
  propose ticket command r =
      if is_leader r
      then (let index = length r.log + 1 in
          let r' = record r {
            log = r.log ++ record { term = r.current_term; index = index; command = command } ∷ [];
            pending_requests = insert index ticket r.pending_requests;
            futures = insert ticket waiting r.futures;
          } in
          some (r', replicate_entries r'))
      else none

  -- The TimeoutError of `propose`: `wait_for` has cancelled the future.
  unfoldable pub propose_timeout : (ticket index : ℕ) → Raft C → Raft C
  propose_timeout ticket index r = record r {
    pending_requests = pop index r.pending_requests;
    futures = insert ticket dropped r.futures;
  }

-- A reply to a vote request, `none` where the send failed.
abbrev pub granted : Option Reply → Bool
granted (some (vote term b voter)) = b
granted _ = false

unfoldable pub count_votes : Dict String (Option Reply) → ℕ
count_votes [] = 0
count_votes ((p, resp) ∷ rs) = let n = count_votes rs in if granted resp then n + 1 else n

-- `_start_election` after its broadcast: the votes are counted, and the node may lead.
unfoldable pub finish_election : {C : Type 0} → Dict String (Option Reply) → Raft C → Raft C
finish_election responses r =
    let votes = 1 + count_votes responses in
    if is_candidate_state r.state && leb (quorum_size r) votes then become_leader r else r
