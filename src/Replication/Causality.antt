-- ===== src/Replication/Causality.antt =====
-- geo/replicator.py: a node's clock is behind none of the entries that it keeps, so that each of its
-- writes dominates all of them.
use tugas3_sinkronisasi_dist.Common.{
  ℕ, ◌+◌, String, true, Option, none, some, List, [], ◌∷◌, All, string_eq, ◌==◌, lookup,
  lookup-insert, IsUnique, IsUnique-insert, ◌≡◌, refl, sym, ap, ◌∙◌, ◌⊎◌, arith, beq_refl,
  Bool-cases, inl, inr,
}
use tugas3_sinkronisasi_dist.Replication.Clocks.{count, increment, is_concurrent, dominates}
use tugas3_sinkronisasi_dist.Replication.Order.{Before, clocks_compare}
use tugas3_sinkronisasi_dist.Replication.Merge.{count-increment, count-merge, IsUnique-merge}
use tugas3_sinkronisasi_dist.Replication.Events.{
  GeoEvent, written_at, received, cleared, geo_step, run_geo,
}
use tugas3_sinkronisasi_dist.Replication.{
  ReplicatedEntry, Replicator, resolve_entry, receive, write, clear_completed, new_replicator,
}

module _ {V : Type 0} where
  -- The node's clock and those of its entries are dictionaries, and none of the latter is ahead.
  pub record HasSeen (r : Replicator V) : Type 0 where
    pub unique : IsUnique r.vector_clock
    pub seen :
        (k : String) (e : ReplicatedEntry V)
        → lookup k r.data_store ≡ some e
        → Before e.vector_clock r.vector_clock

  -- The clock of a received entry came as a dictionary.
  abbrev pub HasDict : GeoEvent V → Type 0
  HasDict (received entry) = IsUnique entry.vector_clock
  HasDict _ = Unit

  resolve_entry-clock :
      (entry : ReplicatedEntry V) (o : Option (ReplicatedEntry V))
      → (resolve_entry entry o).0.vector_clock ≡ entry.vector_clock
  unfolding resolve_entry
  resolve_entry-clock entry none = refl
  resolve_entry-clock entry (some e) =
      elim (Bool-cases (is_concurrent entry.vector_clock e.vector_clock)) [
        | inl both ↦ rw (both, resolve_entry) refl
        | inr ordered ↦ elim (Bool-cases (dominates entry.vector_clock e.vector_clock)) [
          | inl newer ↦ rw (ordered, newer, resolve_entry) refl
          | inr older ↦ rw (ordered, older, resolve_entry) refl
        ]
      ]

  -- A stored entry is the one that came, or was there before.
  receive-cases :
      (entry : ReplicatedEntry V) (r : Replicator V) (k : String) (e : ReplicatedEntry V)
      → lookup k (receive entry r).0.data_store ≡ some e
      → (e.vector_clock ≡ entry.vector_clock) ⊎ (lookup k r.data_store ≡ some e)
  unfolding receive
  receive-cases entry r k e there =
      let o = lookup entry.key r.data_store in
      let (entry', stored) = resolve_entry entry o in
      elim (Bool-cases stored) [
        | inr kept ↦ inr (ground (arith, kept, there))
        | inl put ↦ elim (Bool-cases (entry.key == k)) [
          | inl same ↦
              let e' : entry' ≡ e =
                ground (arith, put, same, there, lookup-insert entry.key k entry' r.data_store) in
              inl (ap (λ x. x.vector_clock) (sym e') ∙ resolve_entry-clock entry o)
          | inr other ↦
              inr (ground (arith, put, other, there, lookup-insert entry.key k entry' r.data_store))
        ]
      ]

  receive-HasSeen :
      (entry : ReplicatedEntry V) (r : Replicator V)
      → IsUnique entry.vector_clock
      → HasSeen r
      → HasSeen (receive entry r).0
  unfolding receive Before
  receive-HasSeen entry r u h = record {
    unique = IsUnique-merge r.vector_clock entry.vector_clock h.unique;
    seen = λ k e there n. elim (receive-cases entry r k e there) [
      | inl new ↦ omega (arith, count-merge n r.vector_clock entry.vector_clock u, ap (count n) new)
      | inr old ↦ omega (arith, count-merge n r.vector_clock entry.vector_clock u, h.seen k e old n)
    ];
  }

  write-HasSeen :
      (now : ℕ) (key : String) (value : V) (r : Replicator V)
      → HasSeen r
      → HasSeen (write now key value r).0
  unfolding write Before increment
  write-HasSeen now key value r h = record {
    unique = IsUnique-insert r.node_id (count r.node_id r.vector_clock + 1) r.vector_clock h.unique;
    seen = λ k e there n. elim (Bool-cases (key == k)) [
      | inl same ↦
          let new = (write now key value r).1 in
          let e' : new ≡ e = ground (arith, same, there, lookup-insert key k new r.data_store) in
          omega (arith, ap (λ x. count n x.vector_clock) e')
      | inr other ↦
          let old : lookup k r.data_store ≡ some e =
            ground
              (arith, other, there, lookup-insert key k (write now key value r).1 r.data_store) in
          ground (arith, h.seen k e old n, count-increment r.node_id n r.vector_clock)
    ];
  }

  step-HasSeen :
      (e : GeoEvent V) (r : Replicator V) → HasDict e → HasSeen r → HasSeen (geo_step e r)
  unfolding geo_step clear_completed
  step-HasSeen (written_at now key value) r d h = write-HasSeen now key value r h
  step-HasSeen (received entry) r d h = receive-HasSeen entry r d h
  step-HasSeen cleared r d h = record { unique = h.unique; seen = h.seen }

  run-HasSeen :
      (es : List (GeoEvent V)) (r : Replicator V)
      → All HasDict es
      → HasSeen r
      → HasSeen (run_geo es r)
  unfolding run_geo
  run-HasSeen [] r d h = h
  run-HasSeen (e ∷ es) r d h = run-HasSeen es (geo_step e r) d.1 (step-HasSeen e r d.0 h)

  -- After any events of a new node, a write of the node dominates every entry that it keeps.
  pub write-dominates :
      (node_id : String) (es : List (GeoEvent V)) (now : ℕ) (key : String) (value : V) (k : String)
      (e : ReplicatedEntry V)
      → All HasDict es
      → lookup k (run_geo es (new_replicator node_id)).data_store ≡ some e
      → dominates
          (write now key value (run_geo es (new_replicator node_id))).1.vector_clock
          e.vector_clock
        ≡ true
  unfolding write
  write-dominates node_id es now key value k e d there =
      let r = run_geo es (new_replicator node_id) in
      let h =
        run-HasSeen es (new_replicator node_id) d
          (record { unique = tt; seen = λ k e there. absurd (unfold lookup in cc) }) in
      (clocks_compare (increment r.node_id r.vector_clock) e.vector_clock).0.1 (
        unfold Before in
            λ n. ground (arith, h.seen k e there n, count-increment r.node_id n r.vector_clock),
        unfold Before in
            λ back. absurd (
              ground (
                arith,
                back r.node_id,
                h.seen k e there r.node_id,
                count-increment r.node_id r.node_id r.vector_clock,
                beq_refl r.node_id,
              )),
      )
