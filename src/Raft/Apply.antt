-- ===== src/Raft/Apply.antt =====
-- consensus/raft.py: `_apply_committed` gives the callbacks every committed entry once, in log order,
-- and `_try_advance_commit` commits only what a quorum holds.
use tugas3_sinkronisasi_dist.Common.{
  ℕ, zero, suc, ◌+◌, ◌-◌, ◌≤◌, ◌<◌, true, some, ◌≡◌, refl, ◌⊎◌, inl, inr, arith, ltb, Bool-cases,
  get_elem?, string_eq, nat_eq, length, take, take-suc, get_elem?-is_some_of_lt, ap, ℕ_discrete,
}
use tugas3_sinkronisasi_dist.Raft.{
  Raft, apply_rounds, apply_committed, is_leader, quorum_size, count_matching, advance_round,
  advance_rounds, try_advance_commit, deliver, term_at,
}

module _ {C : Type 0} where
  -- The callbacks have been given the first `last_applied` entries of the log, in order, and the
  -- indices lie in the log.
  pub record IsApplied (r : Raft C) : Type 0 where
    pub given : r.applied ≡ take r.last_applied r.log
    pub behind : r.last_applied ≤ r.commit_index
    pub inside : r.commit_index ≤ length r.log

  -- What `_apply_committed` leaves alone, whatever the state.
  pub record SameLog (r s : Raft C) : Type 0 where
    pub commit : s.commit_index ≡ r.commit_index
    pub entries : s.log ≡ r.log
    pub term : s.current_term ≡ r.current_term
    pub matches : s.match_index ≡ r.match_index
    pub nexts : s.next_index ≡ r.next_index
    pub members : s.peers ≡ r.peers

  pub apply_rounds-SameLog : (fuel : ℕ) (r : Raft C) → SameLog r (apply_rounds fuel r)
  unfolding apply_rounds
  apply_rounds-SameLog zero r = ground arith
  apply_rounds-SameLog (suc fuel) r =
      let next =
        deliver (get_elem? r.log r.last_applied) (record r { last_applied = r.last_applied + 1 }) in
      ground (arith, apply_rounds-SameLog fuel next)

  pub apply_committed-SameLog : (r : Raft C) → SameLog r (apply_committed r)
  unfolding apply_committed
  apply_committed-SameLog r = apply_rounds-SameLog _ r

  apply_rounds_lem :
      (fuel : ℕ) (r : Raft C)
      → IsApplied r
      → r.commit_index - r.last_applied ≤ fuel
      → IsApplied (apply_rounds fuel r) × ((apply_rounds fuel r).last_applied ≡ r.commit_index)
  unfolding apply_rounds
  apply_rounds_lem zero r v h = (v, omega arith)
  apply_rounds_lem (suc fuel) r v h = elim (Bool-cases (ltb r.last_applied r.commit_index)) [
    | inl more ↦
        let (e, at) = get_elem?-is_some_of_lt r.log r.last_applied (ground arith) in
        let next = deliver (some e) (record r { last_applied = r.last_applied + 1 }) in
        rw (more, at)
          (apply_rounds_lem fuel next
            (record {
              given = ground (arith, take-suc r.last_applied r.log e at, v.given);
              behind = ground arith;
              inside = v.inside;
            })
            (ground arith))
    | inr done ↦ rw done (v, ground arith)
  ]

  -- Let the callbacks have been given exactly the entries of the log up to last_applied, let that be at
  -- most the commit index, and let the commit index lie in the log. Then this holds of the node after
  -- `_apply_committed` too, which ends with last_applied at the commit index and every committed entry
  -- given to the callbacks, in log order.
  pub apply_committed_lem :
      (r : Raft C)
      → IsApplied r
      → IsApplied (apply_committed r)
        × ((apply_committed r).last_applied ≡ r.commit_index)
        × ((apply_committed r).applied ≡ take r.commit_index r.log)
  unfolding apply_committed
  apply_committed_lem r v =
      let fuel = r.commit_index - r.last_applied in
      let (w, done) = apply_rounds_lem fuel r v (omega arith) in
      (w, done, ground (arith, apply_rounds-SameLog fuel r, w.given))

  -- A quorum of the cluster, the leader among it, has matched index `n` of an entry of this term.
  pub record IsQuorate (r : Raft C) (n : ℕ) : Type 0 where
    pub held : quorum_size r ≤ 1 + count_matching n r.match_index r.peers
    pub current : term_at r.log n ≡ r.current_term

  -- From `r` to `s` the commit index has only grown, to a quorate one.
  pub record Advances (r s : Raft C) : Type 0 where
    pub entries : s.log ≡ r.log
    pub term : s.current_term ≡ r.current_term
    pub matches : s.match_index ≡ r.match_index
    pub members : s.peers ≡ r.peers
    pub grows : r.commit_index ≤ s.commit_index
    pub quorate : (s.commit_index ≡ r.commit_index) ⊎ IsQuorate r s.commit_index

  Advances-IsQuorate : {r s : Raft C} (n : ℕ) → Advances r s → IsQuorate s n → IsQuorate r n
  Advances-IsQuorate n a q = ground (arith, q.held, q.current)

  IsQuorate-Advances : {r s : Raft C} (n : ℕ) → Advances r s → IsQuorate r n → IsQuorate s n
  IsQuorate-Advances n a q = ground (arith, q.held, q.current)

  Advances-trans : {r s t : Raft C} → Advances r s → Advances s t → Advances r t
  Advances-trans {r} {s} {t} a b = record {
    entries = ground arith;
    term = ground arith;
    matches = ground arith;
    members = ground arith;
    grows = omega arith;
    quorate = elim b.quorate [
      | inl e ↦ elim a.quorate [
        | inl e' ↦ inl (omega arith)
        | inr q ↦ inr (ground (arith, q.held, q.current))
      ]
      | inr q ↦ inr (Advances-IsQuorate t.commit_index a q)
    ];
  }

  -- What one round does at an index `n` in the log, behind the commit index.
  record Round (n : ℕ) (r s : Raft C) : Type 0 where
    valid : IsApplied s
    advances : Advances r s
    upto : s.commit_index ≤ n
    reaches : IsQuorate r n → s.commit_index ≡ n

  advance_round_lem :
      (n : ℕ) (r : Raft C)
      → IsApplied r
      → r.commit_index < n
      → n ≤ length r.log
      → Round n r (advance_round n r)
  unfolding advance_round
  advance_round_lem n r v lt le =
      let set = record r { commit_index = n } in
      let w : IsApplied set = record { given = v.given; behind = omega arith; inside = le } in
      let same = apply_committed-SameLog set in
      let valid = (apply_committed_lem set w).0 in
      record {
        valid = ground (arith, valid);
        advances = ground (arith, same);
        upto = ground (arith, same);
        reaches = λ q. ground (arith, same, q.held, q.current);
      }

  advance_rounds_lem :
      (k n : ℕ) (r : Raft C)
      → IsApplied r
      → r.commit_index < n
      → n + k ≤ length r.log + 1
      → IsApplied (advance_rounds k n r)
        × Advances r (advance_rounds k n r)
        × ((m : ℕ) → n ≤ m → m < n + k → IsQuorate r m → m ≤ (advance_rounds k n r).commit_index)
  unfolding advance_rounds
  advance_rounds_lem zero n r v lt le = (
    v,
    record {
      entries = refl;
      term = refl;
      matches = refl;
      members = refl;
      grows = omega arith;
      quorate = inl refl;
    },
    λ m h h' q. absurd (omega arith),
  )
  advance_rounds_lem (suc k) n r v lt le =
      let s = advance_round n r in
      let one : Round n r s = advance_round_lem n r v lt (omega arith) in
      let a = one.advances in
      let entries = ap length a.entries in
      let (w, b, all) =
        advance_rounds_lem k (n + 1) s one.valid (omega (arith, one.upto)) (omega arith) in
      (
        w,
        Advances-trans a b,
        λ m h h' q. elim (ℕ_discrete m n) [
          | yes e ↦ omega (arith, one.reaches (rw (← e) q), b.grows)
          | no ne ↦ all m (omega arith) (omega arith) (IsQuorate-Advances m a q)
        ],
      )

  pub try_advance_commit_lem :
      (r : Raft C)
      → IsApplied r
      → is_leader r ≡ true
      → IsApplied (try_advance_commit r)
        × Advances r (try_advance_commit r)
        × ((m : ℕ)
            → r.commit_index < m
            → m ≤ length r.log
            → IsQuorate r m
            → m ≤ (try_advance_commit r).commit_index)
  unfolding try_advance_commit
  try_advance_commit_lem r v lead =
      let inside = v.inside in
      let (w, a, all) =
        advance_rounds_lem (length r.log - r.commit_index) (r.commit_index + 1) r v (omega arith)
          (omega arith) in
      rw lead (w, a, λ m h h' q. all m (omega arith) (omega arith) q)
