-- ===== src/Replication/Convergence.antt =====
-- geo/replicator.py: where timestamps follow the order of the vector clocks, replicas that receive the
-- same writes to a key in any order, each as often as it comes, keep the same one.
use tugas3_sinkronisasi_dist.Common.{
  All-get_elem?, ℕ, zero, suc, ◌≤◌, String, false, Option, none, some, List, [], ◌∷◌, ltb, map, All,
  get_elem?, if◌then◌else◌, string_eq, lookup, lookup-insert, ◌≡◌, refl, sym, ap, ◌∙◌, ◌↔◌, arith,
  beq_refl, Bool-cases, Option-cases, inl, inr, subst,
}
use tugas3_sinkronisasi_dist.Replication.Clocks.{VectorClock, is_concurrent, dominates}
use tugas3_sinkronisasi_dist.Replication.{
  ReplicatedEntry, conflict, replicated, Replicator, resolve_entry, receive,
}

-- What an entry is without its key and its status, which each replica sets for itself.
pub record Write (V : Type 0) : Type 0 where
  pub value : V
  pub vector_clock : VectorClock
  pub origin_node : String
  pub timestamp : ℕ

module _ {V : Type 0} where
  abbrev pub written : ReplicatedEntry V → Write V
  written e = record {
    value = e.value;
    vector_clock = e.vector_clock;
    origin_node = e.origin_node;
    timestamp = e.timestamp;
  }

  unfoldable pub receive_all : List (ReplicatedEntry V) → Replicator V → Replicator V
  receive_all [] r = r
  receive_all (e ∷ es) r = receive_all es (receive e r).0

  -- The write that a replica keeps of a key.
  abbrev pub kept : String → Replicator V → Option (Write V)
  kept k r = elim (lookup k r.data_store) [ none ↦ none | some e ↦ some (written e) ]

  abbrev pub IsIn : Write V → List (Write V) → Type 0
  IsIn w ws = (i : ℕ) × (get_elem? ws i ≡ some w)

  -- Of two writes that are not concurrent, exactly a later one dominates; two with one timestamp are
  -- the same.
  abbrev pub Timely : Write V → Write V → Type 0
  Timely w w' =
      (is_concurrent w.vector_clock w'.vector_clock ≡ false
        → dominates w.vector_clock w'.vector_clock ≡ ltb w'.timestamp w.timestamp)
      × (w.timestamp ≡ w'.timestamp → w ≡ w')

  record Newest (w : Write V) (ws : List (Write V)) : Type 0 where
    is_in : IsIn w ws
    last : All (λ w'. w'.timestamp ≤ w.timestamp) ws

  later_first :
      (w w' e : Write V) (ws : List (Write V))
      → w.timestamp ≤ e.timestamp
      → Newest w' (e ∷ ws)
      → Newest w' (w ∷ e ∷ ws)
  later_first w w' e ws le n = record {
    is_in = (suc n.is_in.0, n.is_in.1);
    last = (omega (arith, n.last.0), n.last);
  }

  earlier_second :
      (w w' e : Write V) (ws : List (Write V))
      → e.timestamp ≤ w.timestamp
      → Newest w' (w ∷ ws)
      → Newest w' (w ∷ e ∷ ws)
  earlier_second w w' e ws le n = record {
    is_in = skip n.is_in.0 n.is_in.1;
    last = (n.last.0, (omega (arith, n.last.0), n.last.1));
  }
    where
      skip : (i : ℕ) → get_elem? (w ∷ ws) i ≡ some w' → IsIn w' (w ∷ e ∷ ws)
      skip zero h = (0, h)
      skip (suc i) h = (suc (suc i), h)

  receive-lookup :
      (e s : ReplicatedEntry V) (r : Replicator V)
      → lookup e.key r.data_store ≡ some s
      → Timely (written e) (written s)
      → kept e.key (receive e r).0
        ≡ (if ltb s.timestamp e.timestamp then some (written e) else some (written s))
  unfolding receive resolve_entry
  receive-lookup e s r there timely =
      elim (Bool-cases (is_concurrent e.vector_clock s.vector_clock)) [
        | inl both ↦ ground (
          arith,
          there,
          both,
          beq_refl e.key,
          lookup-insert e.key e.key (record e { status = conflict }) r.data_store,
        )
        | inr ordered ↦ ground (
          arith,
          there,
          ordered,
          timely.0 ordered,
          beq_refl e.key,
          lookup-insert e.key e.key (record e { status = replicated }) r.data_store,
        )
      ]

  -- With timely writes the later one is kept.
  receive-kept :
      (e : ReplicatedEntry V) (w : Write V) (r : Replicator V)
      → kept e.key r ≡ some w
      → Timely (written e) w
      → kept e.key (receive e r).0
        ≡ (if ltb w.timestamp e.timestamp then some (written e) else some w)
  receive-kept e w r there timely = elim (Option-cases (lookup e.key r.data_store)) [
    | inl absent ↦ absurd (ground (arith, there, absent))
    | inr (s, present) ↦
        let same : written s ≡ w = ground (arith, there, present) in
        subst
          (λ x.
            Timely (written e) x
            → kept e.key (receive e r).0
              ≡ (if ltb x.timestamp e.timestamp then some (written e) else some x))
          same (receive-lookup e s r present) timely
  ]

  receive_first :
      (e : ReplicatedEntry V) (r : Replicator V)
      → kept e.key r ≡ none
      → kept e.key (receive e r).0 ≡ some (written e)
  unfolding receive resolve_entry
  receive_first e r absent = elim (Option-cases (lookup e.key r.data_store)) [
    | inl nothing ↦ ground (
      arith,
      nothing,
      beq_refl e.key,
      lookup-insert e.key e.key (record e { status = replicated }) r.data_store,
    )
    | inr (s, present) ↦ absurd (ground (arith, absent, present))
  ]

  -- All entries are of one key and timely.
  pub record AreTimely (k : String) (all : List (Write V)) (es : List (ReplicatedEntry V))
      : Type 0 where
    pub one_key : All (λ e. e.key ≡ k) es
    pub known : All (λ e. IsIn (written e) all) es
    pub timely : (w w' : Write V) → IsIn w all → IsIn w' all → Timely w w'

  receive_all-kept :
      (k : String) (all : List (Write V)) (es : List (ReplicatedEntry V)) (w : Write V)
      (r : Replicator V)
      → AreTimely k all es
      → IsIn w all
      → kept k r ≡ some w
      → (w' : Write V) × (kept k (receive_all es r) ≡ some w') × Newest w' (w ∷ map written es)
  unfolding receive_all
  receive_all-kept k all [] w r t known there =
      (w, there, record { is_in = (0, refl); last = (omega arith, tt) })
  receive_all-kept k all (e ∷ es) w r t known there =
      let next =
        subst
          (λ x.
            kept x r ≡ some w
            → Timely (written e) w
            → kept x (receive e r).0
              ≡ (if ltb w.timestamp e.timestamp then some (written e) else some w))
          t.one_key.0 (receive-kept e w r) there (t.timely (written e) w t.known.0 known) in
      let t' : AreTimely k all es = record {
        one_key = t.one_key.1;
        known = t.known.1;
        timely = t.timely;
      } in
      elim (Bool-cases (ltb w.timestamp e.timestamp)) [
        | inl later ↦
            let (w', kept', newest) =
              receive_all-kept k all es (written e) (receive e r).0 t' t.known.0
                (next ∙ rw later refl) in
            (w', kept', later_first w w' (written e) (map written es) (ground arith) newest)
        | inr earlier ↦
            let (w', kept', newest) =
              receive_all-kept k all es w (receive e r).0 t' known (next ∙ rw earlier refl) in
            (w', kept', earlier_second w w' (written e) (map written es) (ground arith) newest)
      ]

  -- A replica that has nothing for the key keeps the newest of the writes that it receives.
  receive_all-Newest :
      (k : String) (e : ReplicatedEntry V) (es : List (ReplicatedEntry V)) (r : Replicator V)
      → AreTimely k (map written (e ∷ es)) (e ∷ es)
      → kept k r ≡ none
      → (w : Write V) × (kept k (receive_all (e ∷ es) r) ≡ some w) × Newest w (map written (e ∷ es))
  unfolding receive_all
  receive_all-Newest k e es r t absent =
      receive_all-kept k (map written (e ∷ es)) es (written e) (receive e r).0
        (record { one_key = t.one_key.1; known = t.known.1; timely = t.timely }) (0, refl)
        (subst (λ x. kept x r ≡ none → kept x (receive e r).0 ≡ some (written e)) t.one_key.0
          (receive_first e r) absent)

  Newest-bound :
      (w w' : Write V) (ws : List (Write V)) → Newest w ws → IsIn w' ws → w'.timestamp ≤ w.timestamp
  Newest-bound w w' ws n (i, at) = All-get_elem? (λ x. x.timestamp ≤ w.timestamp) ws i w' at n.last

  -- Two replicas that have nothing for a key and receive the same timely writes to it, in any order and
  -- each as often as it comes, keep the same write.
  pub receives_converge :
      (k : String) (es es' : List (ReplicatedEntry V)) (r r' : Replicator V)
      → AreTimely k (map written es) es
      → AreTimely k (map written es') es'
      → ((w : Write V) → IsIn w (map written es) ↔ IsIn w (map written es'))
      → kept k r ≡ none
      → kept k r' ≡ none
      → kept k (receive_all es r) ≡ kept k (receive_all es' r')
  unfolding receive_all
  receives_converge k [] [] r r' t t' same absent absent' = absent ∙ sym absent'
  receives_converge k [] (e ∷ es') r r' t t' same absent absent' =
      let (i, at) = (same (written e)).1 (0, refl) in absurd cc
  receives_converge k (e ∷ es) [] r r' t t' same absent absent' =
      let (i, at) = (same (written e)).0 (0, refl) in absurd cc
  receives_converge k (e ∷ es) (e' ∷ es') r r' t t' same absent absent' =
      let (w, got, newest) = receive_all-Newest k e es r t absent in
      let (w', got', newest') = receive_all-Newest k e' es' r' t' absent' in
      let there = (same w').1 newest'.is_in in
      let le = Newest-bound w w' (map written (e ∷ es)) newest there in
      let le' = Newest-bound w' w (map written (e' ∷ es')) newest' ((same w).0 newest.is_in) in
      let equal : w ≡ w' = (t.timely w w' newest.is_in there).1 (omega (arith, le, le')) in
      got ∙ ap some equal ∙ sym got'
