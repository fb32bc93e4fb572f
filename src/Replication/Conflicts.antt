-- ===== src/Replication/Conflicts.antt =====
-- geo/replicator.py: ties between concurrent writes, the list of pending replications, and the
-- dictionaries of entries.
use tugas3_sinkronisasi_dist.Common.{
  ℕ, String, true, false, some, List, [], ◌∷◌, All, All-append, string_eq, ◌==◌, nat_eq, lookup,
  insert, ◌≡◌, ◌≢◌, refl, sym, ap, arith, beq_refl, beq_ne, subst,
}
use tugas3_sinkronisasi_dist.Replication.Clocks.{is_concurrent}
use tugas3_sinkronisasi_dist.Replication.Order.{Before, clocks_compare}
use tugas3_sinkronisasi_dist.Replication.Events.{
  GeoEvent, written_at, received, cleared, geo_step, run_geo,
}
use tugas3_sinkronisasi_dist.Replication.Convergence.{written, kept, receive_all}
use tugas3_sinkronisasi_dist.Replication.{
  ReplicationStatus, ReplicatedEntry, conflict, replicated, pending, Replicator, resolve_entry,
  receive, write, keep_pending, clear_completed, new_replicator, status_value, parse_status,
  to_dict, from_dict,
}

status-roundtrip : (s : ReplicationStatus) → parse_status (status_value s) ≡ some s
unfolding parse_status
status-roundtrip pending = refl
status-roundtrip replicated = refl
status-roundtrip conflict = refl

module _ {V : Type 0} where
  receive-tie :
      (x y : ReplicatedEntry V) (node_id : String)
      → x.key ≡ y.key
      → is_concurrent y.vector_clock x.vector_clock ≡ true
      → x.timestamp ≡ y.timestamp
      → kept x.key (receive_all (x ∷ y ∷ []) (new_replicator node_id)) ≡ some (written x)
  unfolding receive_all receive resolve_entry insert lookup
  receive-tie x y node_id key both time = ground (arith, both, key, time, beq_refl x.key)

  -- Two replicas that receive two concurrent writes of one key with equal timestamps in different
  -- orders each keep the one that came first.
  pub equal_timestamps_diverge :
      (x y : ReplicatedEntry V) (a b : String)
      → x.key ≡ y.key
      → ¬ Before x.vector_clock y.vector_clock
      → ¬ Before y.vector_clock x.vector_clock
      → x.timestamp ≡ y.timestamp
      → (kept x.key (receive_all (x ∷ y ∷ []) (new_replicator a)) ≡ some (written x))
        × (kept x.key (receive_all (y ∷ x ∷ []) (new_replicator b)) ≡ some (written y))
  equal_timestamps_diverge x y a b key n n' time = (
    receive-tie x y a key ((clocks_compare y.vector_clock x.vector_clock).1.1 (n, n')) time,
    subst (λ k. kept k (receive_all (y ∷ x ∷ []) (new_replicator b)) ≡ some (written y)) (sym key)
        (receive-tie y x b (sym key) ((clocks_compare x.vector_clock y.vector_clock).1.1 (n', n))
          (sym time)),
  )

  keep_pending-All :
      (es : List (ReplicatedEntry V)) → All (λ e. e.status ≡ pending) es → keep_pending es ≡ es
  unfolding keep_pending
  keep_pending-All [] h = refl
  keep_pending-All (e ∷ es) h = rw (h.0, keep_pending-All es h.1) refl

  run-pending :
      (es : List (GeoEvent V)) (r : Replicator V)
      → All (λ e. e.status ≡ pending) r.pending_replications
      → All (λ e. e.status ≡ pending) (run_geo es r).pending_replications
  unfolding run_geo geo_step write receive clear_completed
  run-pending [] r h = h
  run-pending (written_at now key value ∷ es) r h = run-pending es (write now key value r).0 (
      All-append (λ e. e.status ≡ pending) r.pending_replications ((write now key value r).1 ∷ []) h
        (refl, tt))
  run-pending (received entry ∷ es) r h = run-pending es (receive entry r).0 h
  run-pending (cleared ∷ es) r h =
      run-pending es (clear_completed r)
        (subst (All (λ e. e.status ≡ pending)) (sym (keep_pending-All r.pending_replications h)) h)

  -- After any events of a new node, a round of the replication loop takes nothing off the list of
  -- pending replications.
  pub clear_completed_keeps_all :
      (node_id : String) (es : List (GeoEvent V))
      → clear_completed (run_geo es (new_replicator node_id)) ≡ run_geo es (new_replicator node_id)
  unfolding clear_completed
  clear_completed_keeps_all node_id es =
      let r = run_geo es (new_replicator node_id) in
      ap (λ (l : List (ReplicatedEntry V)). record r { pending_replications = l })
        (keep_pending-All r.pending_replications (run-pending es (new_replicator node_id) tt))

  -- An entry with a timestamp is read back from its dictionary as it was.
  pub from_dict-to_dict :
      (now : ℕ) (e : ReplicatedEntry V) → e.timestamp ≢ 0 → from_dict now (to_dict e) ≡ some e
  unfolding from_dict to_dict
  from_dict-to_dict now e h =
      let parsed = status-roundtrip e.status in
      let time : (e.timestamp == 0) ≡ false = beq_ne e.timestamp 0 h in
      rw (parsed, time, from_dict) refl
