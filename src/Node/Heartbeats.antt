-- ===== src/Node/Heartbeats.antt =====
-- nodes/base_node.py: a round of heartbeats and one of the failure detector together give each peer the
-- status of its last answer.
use tugas3_sinkronisasi_dist.Common.{
  ℕ, ◌-◌, String, Bool, some, List, [], ◌∷◌, ◌++◌, if◌then◌else◌, string_eq, lookup, insert,
  lookup-insert, IsUnique, IsUnique-insert, All, ◌≡◌, ◌≢◌, refl, ap, ◌∙◌, arith, beq_ne, beq_refl,
  Bool-cases, inl, inr,
}
use tugas3_sinkronisasi_dist.Failures.{
  alive, FailureDetector, get_status, same_status, record_heartbeat, classify, monitor_round,
}
use tugas3_sinkronisasi_dist.Failures.Rounds.{status_after, monitor_round_lem}
use tugas3_sinkronisasi_dist.Messaging.{Peer}
use tugas3_sinkronisasi_dist.Node.{heartbeat_round}

record_heartbeat-last :
    (now : ℕ) (k : String) (f : FailureDetector)
    → (record_heartbeat now k f).last_heartbeat ≡ insert k now f.last_heartbeat
unfolding record_heartbeat
record_heartbeat-last now k f = elim (Bool-cases (same_status (get_status k f) alive)) [
  | inl same ↦ rw (same, record_heartbeat) refl
  | inr other ↦ rw (other, record_heartbeat) refl
]

record_heartbeat-classify :
    (now : ℕ) (k : String) (e : ℕ) (f : FailureDetector)
    → classify e (record_heartbeat now k f) ≡ classify e f
unfolding record_heartbeat classify
record_heartbeat-classify now k e f = elim (Bool-cases (same_status (get_status k f) alive)) [
  | inl same ↦ rw (same, record_heartbeat) refl
  | inr other ↦ rw (other, record_heartbeat) refl
]

-- Another node of this id is not among the peers.
abbrev pub LacksId : String → List Peer → Type 0
LacksId j = All (λ p. p.node_id ≢ j)

module _ (answered : Peer → Bool) (now : Peer → ℕ) where
  round-classify :
      (e : ℕ) (peers : List Peer) (f : FailureDetector)
      → classify e (heartbeat_round answered now peers f) ≡ classify e f
  unfolding heartbeat_round
  round-classify e [] f = refl
  round-classify e (p ∷ peers) f = elim (Bool-cases (answered p)) [
    | inl heard ↦
        rw (heard, heartbeat_round)
          (round-classify e peers (record_heartbeat (now p) p.node_id f)
            ∙ record_heartbeat-classify (now p) p.node_id e f)
    | inr silent ↦ rw (silent, heartbeat_round) (round-classify e peers f)
  ]

  round-IsUnique :
      (peers : List Peer) (f : FailureDetector)
      → IsUnique f.last_heartbeat
      → IsUnique (heartbeat_round answered now peers f).last_heartbeat
  unfolding heartbeat_round
  round-IsUnique [] f u = u
  round-IsUnique (p ∷ peers) f u = elim (Bool-cases (answered p)) [
    | inl heard ↦
        rw (heard, heartbeat_round)
          (round-IsUnique peers (record_heartbeat (now p) p.node_id f) (
            rw (record_heartbeat-last (now p) p.node_id f)
              (IsUnique-insert p.node_id (now p) f.last_heartbeat u)))
    | inr silent ↦ rw (silent, heartbeat_round) (round-IsUnique peers f u)
  ]

  round_others :
      (j : String) (peers : List Peer) (f : FailureDetector)
      → LacksId j peers
      → lookup j (heartbeat_round answered now peers f).last_heartbeat ≡ lookup j f.last_heartbeat
  unfolding heartbeat_round
  round_others j [] f h = refl
  round_others j (p ∷ peers) f (other, h) = elim (Bool-cases (answered p)) [
    | inl heard ↦
        rw (heard, heartbeat_round)
          (round_others j peers (record_heartbeat (now p) p.node_id f) h
            ∙ ap (lookup j) (record_heartbeat-last (now p) p.node_id f)
            ∙ lookup-insert p.node_id j (now p) f.last_heartbeat
            ∙ (rw (beq_ne p.node_id j other) refl))
    | inr silent ↦ rw (silent, heartbeat_round) (round_others j peers f h)
  ]

  -- The time of a peer's last answer after a round.
  round_last :
      (p : Peer) (front back : List Peer) (f : FailureDetector)
      → LacksId p.node_id front
      → LacksId p.node_id back
      → lookup p.node_id (heartbeat_round answered now (front ++ p ∷ back) f).last_heartbeat
        ≡ (if answered p then some (now p) else lookup p.node_id f.last_heartbeat)
  unfolding heartbeat_round
  round_last p [] back f h g = elim (Bool-cases (answered p)) [
    | inl heard ↦
        rw (heard, heartbeat_round)
          (round_others p.node_id back (record_heartbeat (now p) p.node_id f) g
            ∙ ap (lookup p.node_id) (record_heartbeat-last (now p) p.node_id f)
            ∙ lookup-insert p.node_id p.node_id (now p) f.last_heartbeat
            ∙ (rw (beq_refl p.node_id) refl))
    | inr silent ↦ rw (silent, heartbeat_round) (round_others p.node_id back f g)
  ]
  round_last p (q ∷ front) back f (other, h) g = elim (Bool-cases (answered q)) [
    | inl heard ↦
        let f' = record_heartbeat (now q) q.node_id f in
        let kept : lookup p.node_id f'.last_heartbeat ≡ lookup p.node_id f.last_heartbeat =
          ap (lookup p.node_id) (record_heartbeat-last (now q) q.node_id f)
          ∙ lookup-insert q.node_id p.node_id (now q) f.last_heartbeat
          ∙ (rw (beq_ne q.node_id p.node_id other) refl) in
        rw (heard, heartbeat_round)
          (round_last p front back f' h g
            ∙ ap (λ last. if answered p then some (now p) else last) kept)
    | inr silent ↦ rw (silent, heartbeat_round) (round_last p front back f h g)
  ]

  -- A round of heartbeats and then one of the failure detector give a monitored peer the status of the
  -- time since its answer in this round, or else since its last heartbeat before. The peers have
  -- different ids.
  pub rounds_detect :
      (later last : ℕ) (p : Peer) (front back : List Peer) (f : FailureDetector)
      → LacksId p.node_id front
      → LacksId p.node_id back
      → IsUnique f.last_heartbeat
      → lookup p.node_id f.last_heartbeat ≡ some last
      → get_status p.node_id
          (monitor_round later (heartbeat_round answered now (front ++ p ∷ back) f))
        ≡ classify (later - (if answered p then now p else last)) f
  unfolding status_after
  rounds_detect later last p front back f h g u known =
      let peers = front ++ p ∷ back in
      let f' = heartbeat_round answered now peers f in
      let time = if answered p then now p else last in
      let at : lookup p.node_id f'.last_heartbeat ≡ some time =
        round_last p front back f h g ∙ ground (arith, known) in
      (monitor_round_lem later f' (round-IsUnique peers f u)).0 p.node_id
      ∙ (rw (at, status_after) (round-classify (later - time) peers f))
