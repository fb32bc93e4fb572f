-- ===== src/Cache/Sound.antt =====
-- nodes/cache_node.py: what holds between any two steps of the nodes' reads, writes and invalidations.
use tugas3_sinkronisasi_dist.Common.{
  ℕ, ◌≤◌, String, true, false, Option, none, some, List, [], ◌∷◌, string_eq, nat_eq, ◌==◌,
  get_elem?, member, ltb, All, All-append, All-get_elem?, Bool-cases, Option-cases, ◌≡◌, refl, sym,
  ap, ◌∙◌, ◌⊎◌, inl, inr, arith, beq_eq, beq_refl, subst,
}
use tugas3_sinkronisasi_dist.Cache.{CacheNode, process_invalidate, process_remote_read}
use tugas3_sinkronisasi_dist.Cache.Lru.{IsValid}
use tugas3_sinkronisasi_dist.Cache.Copies.{
  Copy, copy, value_of, shareable, invalidate-copy, remote_read-copy,
}
use tugas3_sinkronisasi_dist.Cache.Effects.{Agrees, offered, remote_read-value}
use tugas3_sinkronisasi_dist.Cache.Validity.{remote_read-IsValid, process_invalidate-IsValid}
use tugas3_sinkronisasi_dist.Cache.Coherence.{owns, owners, IsCoherent, Weaker}
use tugas3_sinkronisasi_dist.Cache.Places.{All-imp}
use tugas3_sinkronisasi_dist.Cache.Reads.{serve-Weaker}
use tugas3_sinkronisasi_dist.Cache.Writes.{invalidate-Weaker}
use tugas3_sinkronisasi_dist.Cache.Single.{
  get_elem?-at_node, get_elem?-at_place, weaken-IsCoherent, only_holder,
}
use tugas3_sinkronisasi_dist.Cache.Network.{Mail, Network, serves, at_node, network_step}

module _ {V : Type 0} where
  -- A reply about the key offers nothing, or the value while nobody owns the key.
  abbrev pub IsFresh : String → Option V → List (CacheNode V) → Mail V → Type 0
  IsFresh j v ns m =
      ((m.key == j) ≡ false)
      ⊎ ((offered m.reply ≡ none) ⊎ ((offered m.reply ≡ some v) × (owners j ns ≡ 0)))

  pub record IsSound (j : String) (v : Option V) (told : List ℕ) (c : Network V) : Type 0 where
    pub coherent : IsCoherent j v c.nodes
    pub silent :
        (p : ℕ) (n : CacheNode V)
        → member p told ≡ true
        → get_elem? c.nodes p ≡ some n
        → copy j n ≡ none
    pub fresh : All (IsFresh j v c.nodes) c.mail

  pub fewer-IsFresh :
      (j : String) (v : Option V) (ns ns' : List (CacheNode V))
      → (owners j ns ≡ 0 → owners j ns' ≡ 0)
      → (m : Mail V) → IsFresh j v ns m
      → IsFresh j v ns' m
  fewer-IsFresh j v ns ns' fewer m (inl e) = inl e
  fewer-IsFresh j v ns ns' fewer m (inr (inl e)) = inr (inl e)
  fewer-IsFresh j v ns ns' fewer m (inr (inr (e, nobody))) = inr (inr (e, fewer nobody))

  Weaker-none : (o o' : Option (Copy V)) → Weaker o o' → o ≡ none → o' ≡ none
  Weaker-none o o' (inl e) h = e
  Weaker-none o o' (inr (inl e)) h = e ∙ h
  Weaker-none o o' (inr (inr e)) h = e ∙ ap shareable h

  weaken-silent :
      (j : String) (i : ℕ) (f : CacheNode V → CacheNode V) (ns : List (CacheNode V)) (told : List ℕ)
      → All (λ n. IsValid n.cache) ns
      → ((n : CacheNode V)
          → IsValid n.cache
          → IsValid (f n).cache × Weaker (copy j n) (copy j (f n)))
      → ((p : ℕ) (n : CacheNode V)
          → member p told ≡ true
          → get_elem? ns p ≡ some n
          → copy j n ≡ none)
      → (p : ℕ) (n : CacheNode V) → member p told ≡ true
      → get_elem? (at_node i f ns) p ≡ some n
      → copy j n ≡ none
  weaken-silent j i f ns told valid weaker silent p n m at =
      let (n', at', from) = get_elem?-at_node i p f ns n at in
      let before = silent p n' m at' in
      elim from [
        | inl e ↦ ap (copy j) e ∙ before
        | inr (e, here) ↦
            ap (copy j) e
            ∙ Weaker-none (copy j n') (copy j (f n'))
                (weaker n' (All-get_elem? (λ n. IsValid n.cache) ns p n' at' valid)).1 before
      ]

  -- A step that weakens copies of the key at most.
  pub weaken-IsSound :
      (j : String) (v : Option V) (told : List ℕ) (i : ℕ) (f : CacheNode V → CacheNode V)
      (c : Network V)
      → ((n : CacheNode V)
          → IsValid n.cache
          → IsValid (f n).cache × Weaker (copy j n) (copy j (f n)))
      → IsSound j v told c
      → IsSound j v told (record c { nodes = at_node i f c.nodes })
  weaken-IsSound j v told i f c weaker s =
      let (coherent, fewer) = weaken-IsCoherent j v i f c.nodes weaker s.coherent in
      record {
        coherent = coherent;
        silent = weaken-silent j i f c.nodes told s.coherent.valid weaker s.silent;
        fresh =
            All-imp (IsFresh j v c.nodes) (IsFresh j v (at_node i f c.nodes)) c.mail
              (fewer-IsFresh j v c.nodes (at_node i f c.nodes) (λ e. omega (arith, fewer))) s.fresh;
      }

  -- The node that clears a key is told, and has no copy of it.
  pub clears-IsSound :
      (j : String) (v : Option V) (told : List ℕ) (i : ℕ) (c : Network V)
      → IsSound j v told c
      → IsSound j v
          (i ∷ told)
          (record c { nodes = at_node i (λ n. (process_invalidate j n).0) c.nodes })
  clears-IsSound j v told i c s =
      let f = λ (n : CacheNode V). (process_invalidate j n).0 in
      let s' =
        weaken-IsSound j v told i f c
          (λ n w. (process_invalidate-IsValid j n w, invalidate-Weaker j j n)) s in
      record {
        coherent = s'.coherent;
        silent = λ p n m at. elim (Bool-cases (i == p)) [
          | inl here ↦
              let e : i ≡ p = beq_eq i p here in
              let (n', e') =
                get_elem?-at_place i f c.nodes n (ap (get_elem? (at_node i f c.nodes)) e ∙ at) in
              ap (copy j) e' ∙ invalidate-copy j j n' ∙ rw (beq_refl j) refl
          | inr other ↦ s'.silent p n (unfold member in ground (arith, m, other)) at
        ];
        fresh = s'.fresh;
      }

  -- What a node that serves a read of the key answers, and who owns the key then.
  served-IsFresh :
      (now : ℕ) (i read : ℕ) (j : String) (v : Option V) (n : CacheNode V) (ns : List (CacheNode V))
      → get_elem? ns i ≡ some n
      → IsCoherent j v ns
      → owners j (at_node i (λ n. (process_remote_read now j n).0) ns) ≤ owners j ns
      → IsFresh j v
          (at_node i (λ n. (process_remote_read now j n).0) ns)
          (record { read = read; key = j; reply = (process_remote_read now j n).1 })
  served-IsFresh now i read j v n ns at c fewer = go (copy j n) refl
    where
      f : CacheNode V → CacheNode V
      f n = (process_remote_read now j n).0

      go :
          (o : Option (Copy V))
          → copy j n ≡ o
          → IsFresh j v
              (at_node i f ns)
              (record { read = read; key = j; reply = (process_remote_read now j n).1 })
      go none e = inr (inl (remote_read-value now j n ∙ ap value_of e))
      go (some x) e =
          let agreed : x.value ≡ v =
            subst (Agrees v) e (All-get_elem? (λ n. Agrees v (copy j n)) ns i n at c.agrees) in
          let shared : copy j (f n) ≡ shareable (copy j n) =
            remote_read-copy now j j n ∙ rw (beq_refl j) refl in
          let unowned : owns (copy j (f n)) ≡ 0 = ap owns (shared ∙ ap shareable e) in
          inr (
            inr (
              remote_read-value now j n ∙ ap value_of e ∙ ap some agreed,
              elim (Bool-cases (ltb 0 (owners j ns))) [
                | inl owned ↦
                    only_holder j i f n x ns at e unowned (c.alone (ground (arith, owned)))
                | inr nobody ↦ ground (arith, nobody, fewer)
              ],
            ))

  pub serves-IsSound :
      (now : ℕ) (i read : ℕ) (k j : String) (v : Option V) (told : List ℕ) (c : Network V)
      → IsSound j v told c
      → IsSound j v told (network_step (serves now i read k) c)
  unfolding network_step
  serves-IsSound now i read k j v told c s = elim (Option-cases (get_elem? c.nodes i)) [
    | inl nobody ↦ rw (nobody, network_step) s
    | inr (n, at) ↦
        let f = λ (n : CacheNode V). (process_remote_read now k n).0 in
        let weaker : (n : CacheNode V)
            → IsValid n.cache
            → IsValid (f n).cache × Weaker (copy j n) (copy j (f n)) =
          λ n w. (remote_read-IsValid now k n w, serve-Weaker now k j n) in
        let s' = weaken-IsSound j v told i f c weaker s in
        let m : Mail V = record { read = read; key = k; reply = (process_remote_read now k n).1 } in
        let new : IsFresh j v (at_node i f c.nodes) m = elim (Bool-cases (k == j)) [
          | inr other ↦ inl other
          | inl same ↦
              subst
                (λ k.
                  IsFresh j v (at_node i (λ n. (process_remote_read now k n).0) c.nodes)
                    (record { read = read; key = k; reply = (process_remote_read now k n).1 }))
                (sym (beq_eq k j same))
                (served-IsFresh now i read j v n c.nodes at s.coherent
                  (weaken-IsCoherent j v i (λ n. (process_remote_read now j n).0) c.nodes
                    (λ n w. (remote_read-IsValid now j n w, serve-Weaker now j j n)) s.coherent).1)
        ] in
        rw (at, network_step)
          (record {
            coherent = s'.coherent;
            silent = s'.silent;
            fresh =
                All-append (IsFresh j v (at_node i f c.nodes)) c.mail (m ∷ []) s'.fresh (new, tt);
          })
  ]
