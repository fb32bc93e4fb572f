-- ===== src/Queue/Stability.antt =====
-- nodes/queue_node.py: a node that joins or leaves the ring moves no other keys than its own.
use tugas3_sinkronisasi_dist.Common.{
  ℕ, zero, suc, ◌+◌, ◌≤◌, ◌<◌, String, true, false, none, some, is_some, string_eq, nat_eq, ◌==◌,
  Dict, lookup, insert, pop, lookup-insert, lookup-pop, ◌≡◌, ◌≢◌, refl, sym, ap, ◌∙◌, ◌⊎◌, inl, inr,
  arith, Bool-cases, beq_ne, beq_eq,
}
use tugas3_sinkronisasi_dist.Queue.Ring.{
  HashRing, put_points, pop_points, add_node, remove_node, get_node,
}
use tugas3_sinkronisasi_dist.Queue.Placement.{
  IsNext, nearer, IsIndexed, get_node_lem, get_node_next,
}

module _ (point : String → ℕ → ℕ) where
  -- A point of the node from `i` on, `n` of them, or an old one that is none of these.
  lookup-put_points :
      (node_id : String) (q i n : ℕ) (d : Dict ℕ String)
      → ((j : ℕ) × (i ≤ j)
          × (j < i + n)
          × (point node_id j ≡ q)
          × (lookup q (put_points point node_id i n d) ≡ some node_id))
        ⊎ (((j : ℕ) → i ≤ j → j < i + n → point node_id j ≢ q)
            × (lookup q (put_points point node_id i n d) ≡ lookup q d))
  unfolding put_points
  lookup-put_points node_id q i zero d = inr ((λ j le lt. absurd (omega arith)), refl)
  lookup-put_points node_id q i (suc n) d =
      let d' = insert (point node_id i) node_id d in
      elim (lookup-put_points node_id q (i + 1) n d') [
        | inl (j, le, lt, at, new) ↦ inl (j, omega arith, omega arith, at, new)
        | inr (none_later, old) ↦ elim (Bool-cases (point node_id i == q)) [
          | inl same ↦ inl (
            i,
            omega arith,
            omega arith,
            beq_eq (point node_id i) q same,
            old ∙ lookup-insert (point node_id i) q node_id d ∙ rw same refl,
          )
          | inr other ↦ inr (
            (λ j le lt. elim (Bool-cases (j == i)) [
              | inl here ↦ λ e. ground (arith, e, here, other, ap (point node_id) (beq_eq j i here))
              | inr later ↦ none_later j (ground (arith, le, later)) (omega arith)
            ]),
            old ∙ lookup-insert (point node_id i) q node_id d ∙ rw other refl,
          )
        ]
      ]

  lookup-pop_points :
      (node_id : String) (q i n : ℕ) (d : Dict ℕ String)
      → (lookup q (pop_points point node_id i n d) ≡ none)
        ⊎ (lookup q (pop_points point node_id i n d) ≡ lookup q d)
  unfolding pop_points
  lookup-pop_points node_id q i zero d = inr refl
  lookup-pop_points node_id q i (suc n) d =
      elim (lookup-pop_points node_id q (i + 1) n (pop (point node_id i) d)) [
        | inl gone ↦ inl gone
        | inr old ↦ elim (Bool-cases (point node_id i == q)) [
          | inl same ↦ inl (old ∙ lookup-pop (point node_id i) q d ∙ rw same refl)
          | inr other ↦ inr (old ∙ lookup-pop (point node_id i) q d ∙ rw other refl)
        ]
      ]

  lookup-pop_points_ne :
      (node_id : String) (q i n : ℕ) (d : Dict ℕ String)
      → ((j : ℕ) → i ≤ j → j < i + n → point node_id j ≢ q)
      → lookup q (pop_points point node_id i n d) ≡ lookup q d
  unfolding pop_points
  lookup-pop_points_ne node_id q i zero d ne = refl
  lookup-pop_points_ne node_id q i (suc n) d ne =
      lookup-pop_points_ne node_id q (i + 1) n (pop (point node_id i) d)
        (λ j le lt. ne j (omega arith) (omega arith))
      ∙ lookup-pop (point node_id i) q d
      ∙ (rw (beq_ne (point node_id i) q (ne i (omega arith) (omega arith))) refl)

  -- Fewer points of which the nearest one is left.
  fewer_IsNext :
      (h p : ℕ) (d d' : Dict ℕ String)
      → ((q : ℕ) → (lookup q d' ≡ none) ⊎ (lookup q d' ≡ lookup q d))
      → lookup p d' ≡ lookup p d
      → IsNext h p d
      → IsNext h p d'
  fewer_IsNext h p d d' fewer kept n = record {
    there = ap is_some kept ∙ n.there;
    nearest = λ q m. elim (fewer q) [
      | inl gone ↦ absurd (ground (arith, m, gone))
      | inr same ↦ n.nearest q (sym (ap is_some same) ∙ m)
    ];
  }

  -- The nearest of more points, where it is an old one.
  more_IsNext :
      (h p : ℕ) (d d' : Dict ℕ String)
      → ((q : ℕ) → is_some (lookup q d) ≡ true → is_some (lookup q d') ≡ true)
      → is_some (lookup p d') ≡ is_some (lookup p d)
      → IsNext h p d'
      → IsNext h p d
  more_IsNext h p d d' more kept n = record {
    there = sym kept ∙ n.there;
    nearest = λ q m. n.nearest q (more q m);
  }

  module _ (hash : String → ℕ) where
    -- Removing a node leaves the keys of the other nodes where they are, if the points of the node
    -- belong to no other.
    pub remove_node_moves_own :
        (key node_id m : String) (r : HashRing)
        → IsIndexed r
        → ((i : ℕ) (o : String)
            → i < r.replicas
            → lookup (point node_id i) r.ring ≡ some o
            → o ≡ node_id)
        → get_node hash key r ≡ some m
        → m ≢ node_id
        → get_node hash key (remove_node point node_id r) ≡ some m
    unfolding remove_node
    remove_node_moves_own key node_id m r indexed own got other =
        elim (get_node_lem hash key r indexed) [
          | inl (empty, nobody) ↦ absurd cc
          | inr (p, next, at) ↦
              let d' = pop_points point node_id 0 r.replicas r.ring in
              let owner : lookup p r.ring ≡ some m = sym at ∙ got in
              let kept : lookup p d' ≡ lookup p r.ring =
                lookup-pop_points_ne node_id p 0 r.replicas r.ring (λ j le lt e.
                  other (own j m (omega (arith, lt)) (ap (λ x. lookup x r.ring) e ∙ owner))) in
              let next' =
                fewer_IsNext (hash key) p r.ring d'
                  (λ q. lookup-pop_points node_id q 0 r.replicas r.ring) kept next in
              let r' = remove_node point node_id r in
              get_node_next hash key p r' refl next' ∙ kept ∙ owner
        ]

    -- Some point of the node is clockwise from the key no later than every point on the ring.
    abbrev pub Takes : (key node_id : String) → HashRing → Type 0
    Takes key node_id r =
        (i : ℕ) × (i < r.replicas)
        × ((q : ℕ)
            → is_some (lookup q r.ring) ≡ true
            → nearer (hash key) (point node_id i) q ≡ true)

    -- Where the sorted keys of the ring are those of its index, a node that is added gets exactly the keys
    -- of which one of its points is no later than any point of the ring, clockwise from the key. Every
    -- other key stays where it was.
    pub add_node_moves_to_new :
        (key node_id : String) (r : HashRing)
        → IsIndexed r
        → (Takes key node_id r × (get_node hash key (add_node point node_id r) ≡ some node_id))
          ⊎ ((¬ Takes key node_id r)
              × (get_node hash key (add_node point node_id r) ≡ get_node hash key r))
    unfolding add_node
    add_node_moves_to_new key node_id r indexed =
        let r' = add_node point node_id r in
        let points = λ (q : ℕ). lookup-put_points node_id q 0 r.replicas r.ring in
        let more : (q : ℕ) → is_some (lookup q r.ring) ≡ true → is_some (lookup q r'.ring) ≡ true =
          λ q there. elim (points q) [
            | inl (i, le, lt, at, new) ↦ ap is_some new
            | inr (ne, old) ↦ ap is_some old ∙ there
          ] in
        let own : (i : ℕ) → i < r.replicas → is_some (lookup (point node_id i) r'.ring) ≡ true =
          λ i lt. elim (points (point node_id i)) [
            | inl (j, le, lt', at, new) ↦ ap is_some new
            | inr (ne, old) ↦ absurd (ne i (omega arith) (omega (arith, lt)) refl)
          ] in
        elim (get_node_lem hash key r' refl) [
          | inl (empty, nobody) ↦
              let gone : (q : ℕ) → is_some (lookup q r'.ring) ≡ false =
                λ q. ap (λ d. is_some (lookup q d)) empty ∙ unfold lookup in refl in
              inr (
                (λ t.
                    let e = own t.0 t.1 in
                    let e' = gone (point node_id t.0) in ground (arith, e, e')),
                nobody
                    ∙ sym (elim (get_node_lem hash key r indexed) [
                      | inl (empty', nobody') ↦ nobody'
                      | inr (p, next, at) ↦
                          let e = more p next.there in
                          let e' = gone p in absurd (ground (arith, e, e'))
                    ]),
              )
          | inr (p, next, at) ↦ elim (points p) [
            | inl (i, le, lt, e, new) ↦ inl (
              (
                i,
                omega (arith, lt),
                (λ q there. ap (λ p. nearer (hash key) p q) e ∙ next.nearest q (more q there)),
              ),
              at ∙ new,
            )
            | inr (ne, old) ↦ inr (
              (λ t.
                  let le = t.2 p (sym (ap is_some old) ∙ next.there) in
                  let le' = next.nearest (point node_id t.0) (own t.0 t.1) in
                  ne t.0 (omega arith) (omega (arith, t.1)) (ground (arith, le, le'))),
              at
                  ∙ old
                  ∙ sym (
                      get_node_next hash key p r indexed
                        (more_IsNext (hash key) p r.ring r'.ring more (ap is_some old) next)),
            )
          ]
        ]
