-- ===== src/Replication/Tests.antt =====
-- geo/replicator.py: three writes of one key, and the theorems at them.
use tugas3_sinkronisasi_dist.Common.{
  ℕ, zero, suc, String, true, some, List, [], ◌∷◌, string_eq, nat_eq, lookup, insert, ◌≡◌, refl,
  sym, ap, ◌↔◌, ◌⊎◌, arith, inl, inr, subst,
}
use tugas3_sinkronisasi_dist.Replication.Clocks.{
  VectorClock, increment, merge, compare_keys, dominates_keys, is_concurrent, dominates,
}
use tugas3_sinkronisasi_dist.Replication.Order.{Before, clocks_compare}
use tugas3_sinkronisasi_dist.Replication.Merge.{merge_is_least}
use tugas3_sinkronisasi_dist.Replication.Events.{
  GeoEvent, written_at, received, cleared, geo_step, run_geo,
}
use tugas3_sinkronisasi_dist.Replication.Causality.{write-dominates}
use tugas3_sinkronisasi_dist.Replication.Convergence.{
  Write, written, kept, receive_all, IsIn, Timely, receives_converge,
}
use tugas3_sinkronisasi_dist.Replication.{
  ReplicatedEntry, conflict, pending, resolve_entry, receive, write, clear_completed,
  new_replicator, to_dict, from_dict, parse_status, handle_replicate,
}

program : Unit {0}
unfolding lookup insert increment merge compare_keys dominates_keys is_concurrent dominates
    resolve_entry receive write clear_completed geo_step run_geo receive_all to_dict from_dict
    parse_status handle_replicate
program = tt

abbrev entry_of : (value : ℕ) → VectorClock → (origin : String) → (time : ℕ) → ReplicatedEntry ℕ
entry_of value clock origin time = record {
  key = "k";
  value = value;
  vector_clock = clock;
  origin_node = origin;
  timestamp = time;
  status = pending;
}

-- `a` writes, `b` writes without knowing of it.
abbrev at_a : ReplicatedEntry ℕ
at_a = entry_of 1 (("a", 1) ∷ []) "a" 10

abbrev at_b : ReplicatedEntry ℕ
at_b = entry_of 2 (("b", 1) ∷ []) "b" 12

handled :
    handle_replicate 20 (to_dict at_b) (write 10 "k" 1 (new_replicator "a")).0
    ≡ some (
      record {
        node_id = "a";
        data_store = ("k", record at_b { status = conflict }) ∷ [];
        vector_clock = ("a", 1) ∷ ("b", 1) ∷ [];
        pending_replications = at_a ∷ [];
      },
      ("conflict", "k"),
    )
unfolding program
handled = refl

clocks_compare_example :
    ((dominates (("a", 2) ∷ []) (("b", 1) ∷ ("a", 1) ∷ []) ≡ true) ↔ (
      Before (("b", 1) ∷ ("a", 1) ∷ []) (("a", 2) ∷ [])
      × ¬ Before (("a", 2) ∷ []) (("b", 1) ∷ ("a", 1) ∷ [])))
    × ((is_concurrent (("a", 2) ∷ []) (("b", 1) ∷ ("a", 1) ∷ []) ≡ true) ↔ (
        ¬ Before (("b", 1) ∷ ("a", 1) ∷ []) (("a", 2) ∷ [])
        × ¬ Before (("a", 2) ∷ []) (("b", 1) ∷ ("a", 1) ∷ [])))
clocks_compare_example = clocks_compare (("a", 2) ∷ []) (("b", 1) ∷ ("a", 1) ∷ [])

merge_is_least_example :
    Before (("a", 2) ∷ []) (merge (("a", 2) ∷ []) (("b", 1) ∷ ("a", 1) ∷ []))
    × Before (("b", 1) ∷ ("a", 1) ∷ []) (merge (("a", 2) ∷ []) (("b", 1) ∷ ("a", 1) ∷ []))
    × ((bound : VectorClock)
        → Before (("a", 2) ∷ []) bound
        → Before (("b", 1) ∷ ("a", 1) ∷ []) bound
        → Before (merge (("a", 2) ∷ []) (("b", 1) ∷ ("a", 1) ∷ [])) bound)
merge_is_least_example =
    merge_is_least (("a", 2) ∷ []) (("b", 1) ∷ ("a", 1) ∷ []) (unfold program in (refl, (refl, tt)))

abbrev events : List (GeoEvent ℕ)
events = written_at 10 "k" 1 ∷ received at_b ∷ cleared ∷ []

write-dominates_example :
    dominates
      (write 13 "k" 3 (run_geo events (new_replicator "a"))).1.vector_clock
      at_b.vector_clock
    ≡ true
write-dominates_example =
    write-dominates "a" events 13 "k" 3 "k" (record at_b { status = conflict })
      (tt, (unfold program in (refl, tt), (tt, tt))) (unfold program in refl)

-- The two writes are timely, in either order.
in_two : (w x y : Write ℕ) → IsIn w (x ∷ y ∷ []) → (w ≡ x) ⊎ (w ≡ y)
in_two w x y (zero, at) = inl cc
in_two w x y (suc zero, at) = inr cc
in_two w x y (suc (suc i), at) = absurd cc

swap : (w x y : Write ℕ) → IsIn w (x ∷ y ∷ []) → IsIn w (y ∷ x ∷ [])
swap w x y i = elim (in_two w x y i) [ inl e ↦ (1, ap some (sym e)) | inr e ↦ (0, ap some (sym e)) ]

at_both :
    (w w' x : Write ℕ)
    → w ≡ x
    → IsIn w' (written at_a ∷ written at_b ∷ [])
    → Timely x (written at_a)
    → Timely x (written at_b)
    → Timely w w'
at_both w w' x e i' a b =
    subst (λ v. Timely v w') (sym e)
      (elim (in_two w' (written at_a) (written at_b) i') [
        | inl e' ↦ subst (Timely x) (sym e') a
        | inr e' ↦ subst (Timely x) (sym e') b
      ])

pair_in_order :
    (w w' : Write ℕ)
    → IsIn w (written at_a ∷ written at_b ∷ [])
    → IsIn w' (written at_a ∷ written at_b ∷ [])
    → Timely w w'
pair_in_order w w' i i' = elim (in_two w (written at_a) (written at_b) i) [
  | inl e ↦
      at_both w w' (written at_a) e i' (unfold program in (λ h. refl, λ t. refl))
        (unfold program in (λ h. absurd cc, λ t. absurd (omega arith)))
  | inr e ↦
      at_both w w' (written at_b) e i'
        (unfold program in (λ h. absurd cc, λ t. absurd (omega arith)))
        (unfold program in (λ h. refl, λ t. refl))
]

receives_converge_example :
    kept "k" (receive_all (at_a ∷ at_b ∷ []) (new_replicator "c"))
    ≡ kept "k" (receive_all (at_b ∷ at_a ∷ []) (new_replicator "d"))
receives_converge_example =
    receives_converge "k" (at_a ∷ at_b ∷ []) (at_b ∷ at_a ∷ []) (new_replicator "c")
      (new_replicator "d")
      (record {
        one_key = (refl, (refl, tt));
        known = ((0, refl), ((1, refl), tt));
        timely = pair_in_order;
      })
      (record {
        one_key = (refl, (refl, tt));
        known = ((0, refl), ((1, refl), tt));
        timely = λ w w' i i'.
            pair_in_order w w' (swap w (written at_b) (written at_a) i)
              (swap w' (written at_b) (written at_a) i');
      })
      (λ w. (swap w (written at_a) (written at_b), swap w (written at_b) (written at_a)))
      (unfold program in refl) (unfold program in refl)
