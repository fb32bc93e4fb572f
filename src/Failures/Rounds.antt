-- ===== src/Failures/Rounds.antt =====
-- communication/failure_detector.py: after a round every monitored node has the status that its time
-- without heartbeats gives, and the callbacks have been told of exactly the changes.
use tugas3_sinkronisasi_dist.Common.{
  append-nil, append_assoc, ℕ, ◌-◌, String, true, false, none, some, List, [], ◌∷◌, ◌++◌,
  if◌then◌else◌, string_eq, ◌==◌, Dict, lookup, lookup-insert, IsUnique, ◌≡◌, refl, sym, ap, ◌∙◌,
  arith, beq_eq, beq_refl, Bool-cases, Option-cases, inl, inr, subst,
}
use tugas3_sinkronisasi_dist.Failures.{
  NodeStatus, alive, suspected, dead, unknown, same_status, Change, FailureDetector, get_status,
  classify, check_node, check_nodes, monitor_round,
}

same_status_eq : (s t : NodeStatus) → same_status s t ≡ true → s ≡ t
same_status_eq alive alive h = refl
same_status_eq suspected suspected h = refl
same_status_eq dead dead h = refl
same_status_eq unknown unknown h = refl
same_status_eq alive suspected h = absurd cc
same_status_eq alive dead h = absurd cc
same_status_eq alive unknown h = absurd cc
same_status_eq suspected alive h = absurd cc
same_status_eq suspected dead h = absurd cc
same_status_eq suspected unknown h = absurd cc
same_status_eq dead alive h = absurd cc
same_status_eq dead suspected h = absurd cc
same_status_eq dead unknown h = absurd cc
same_status_eq unknown alive h = absurd cc
same_status_eq unknown suspected h = absurd cc
same_status_eq unknown dead h = absurd cc

-- The calls of a round, from the statuses at its start.
unfoldable pub changes : (now : ℕ) → Dict String ℕ → FailureDetector → List Change
changes now [] f = []
changes now ((node_id, last_hb) ∷ items) f =
    let rest = changes now items f in
    let old = get_status node_id f in
    let new = classify (now - last_hb) f in
    if same_status new old
    then rest
    else record { node_id = node_id; old_status = old; new_status = new } ∷ rest

-- The status of a node after a round over these items.
unfoldable pub status_after : (now : ℕ) → Dict String ℕ → String → FailureDetector → NodeStatus
status_after now items j f = elim (lookup j items) [
  | none ↦ get_status j f
  | some last_hb ↦ classify (now - last_hb) f
]

check_node_lem :
    (now : ℕ) (k j : String) (t : ℕ) (f : FailureDetector)
    → get_status j (check_node now k t f)
      ≡ (if k == j then classify (now - t) f else get_status j f)
unfolding check_node
check_node_lem now k j t f =
    elim (Bool-cases (same_status (classify (now - t) f) (get_status k f))) [
      | inl same ↦
          let e = same_status_eq (classify (now - t) f) (get_status k f) same in
          ground (arith, same, e, beq_eq k j)
      | inr other ↦ ground (arith, other, lookup-insert k j (classify (now - t) f) f.node_status)
    ]

-- A round changes neither the timeouts nor the heartbeats.
check_node-classify :
    (now : ℕ) (k : String) (t e : ℕ) (f : FailureDetector)
    → classify e (check_node now k t f) ≡ classify e f
unfolding check_node classify
check_node-classify now k t e f =
    elim (Bool-cases (same_status (classify (now - t) f) (get_status k f))) [
      | inl same ↦ rw (same, check_node) refl
      | inr other ↦ rw (other, check_node) refl
    ]

check_nodes-status :
    (now : ℕ) (items : Dict String ℕ) (j : String) (f : FailureDetector)
    → IsUnique items
    → get_status j (check_nodes now items f) ≡ status_after now items j f
unfolding check_nodes status_after lookup
check_nodes-status now [] j f u = refl
check_nodes-status now ((k, t) ∷ items) j f u =
    check_nodes-status now items j (check_node now k t f) u.1
    ∙ elim (Option-cases (lookup j items)) [
      | inl absent ↦ ground (arith, absent, check_node_lem now k j t f)
      | inr (t', there) ↦ elim (Bool-cases (k == j)) [
        | inl same ↦
            let e : k ≡ j = beq_eq k j same in
            let gone : lookup j items ≡ none = subst (λ x. lookup x items ≡ none) e u.0 in
            absurd (ground (arith, there, gone))
        | inr other ↦ ground (arith, there, other, check_node-classify now k t (now - t') f)
      ]
    ]

-- Checking one node changes what is said of no other.
changes-check_node :
    (now : ℕ) (k : String) (t : ℕ) (items : Dict String ℕ) (f : FailureDetector)
    → lookup k items ≡ none
    → changes now items (check_node now k t f) ≡ changes now items f
unfolding changes lookup
changes-check_node now k t [] f absent = refl
changes-check_node now k t ((i, t') ∷ items) f absent = elim (Bool-cases (i == k)) [
  | inl same ↦ absurd (ground (arith, absent, same))
  | inr other ↦
      let other' : (k == i) ≡ false = ground (arith, other, beq_eq k i, beq_refl i) in
      let status : get_status i (check_node now k t f) ≡ get_status i f =
        check_node_lem now k i t f ∙ (rw other' refl) in
      let class = check_node-classify now k t (now - t') f in
      let rest = changes-check_node now k t items f (ground (arith, absent, other)) in
      rw (status, class, rest) refl
]

check_node-notified :
    (now : ℕ) (k : String) (t : ℕ) (items : Dict String ℕ) (f : FailureDetector)
    → (check_node now k t f).notified ++ changes now items f
      ≡ f.notified ++ changes now ((k, t) ∷ items) f
unfolding changes check_node
check_node-notified now k t items f =
    elim (Bool-cases (same_status (classify (now - t) f) (get_status k f))) [
      | inl same ↦ rw (same, check_node, changes) refl
      | inr other ↦
          let change : Change = record {
            node_id = k;
            old_status = get_status k f;
            new_status = classify (now - t) f;
          } in
          rw (other, check_node, changes)
            (append_assoc f.notified (change ∷ []) (changes now items f))
    ]

check_nodes-notified :
    (now : ℕ) (items : Dict String ℕ) (f : FailureDetector)
    → IsUnique items
    → (check_nodes now items f).notified ≡ f.notified ++ changes now items f
unfolding check_nodes changes
check_nodes-notified now [] f u = sym (append-nil f.notified)
check_nodes-notified now ((k, t) ∷ items) f u =
    check_nodes-notified now items (check_node now k t f) u.1
    ∙ ap (λ cs. (check_node now k t f).notified ++ cs) (changes-check_node now k t items f u.0)
    ∙ check_node-notified now k t items f

-- After a round every monitored node has the status that its time without heartbeats gives, every
-- other one is as it was, and the callbacks have been given the changes, in the order of the items.
pub monitor_round_lem :
    (now : ℕ) (f : FailureDetector)
    → IsUnique f.last_heartbeat
    → ((j : String) → get_status j (monitor_round now f) ≡ status_after now f.last_heartbeat j f)
      × ((monitor_round now f).notified ≡ f.notified ++ changes now f.last_heartbeat f)
unfolding monitor_round
monitor_round_lem now f u = (
  λ j. check_nodes-status now f.last_heartbeat j f u,
  check_nodes-notified now f.last_heartbeat f u,
)
