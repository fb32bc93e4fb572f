-- ===== src/Cache/Coherence.antt =====
-- nodes/cache_node.py: the copies that the nodes of a cluster hold of one key.
use tugas3_sinkronisasi_dist.Common.{
  ℕ, zero, suc, ◌+◌, ◌≤◌, String, Option, none, some, List, [], ◌∷◌, ◌≡◌, refl, arith,
  if◌then◌else◌, string_eq, map, All, get_elem?, inl, inr, ◌⊎◌,
}
use tugas3_sinkronisasi_dist.Cache.{CacheNode}
use tugas3_sinkronisasi_dist.Cache.Lru.{IsValid}
use tugas3_sinkronisasi_dist.Cache.Copies.{Copy, copy, shareable}
use tugas3_sinkronisasi_dist.Cache.Effects.{Agrees}
use tugas3_sinkronisasi_dist.Cache.Places.{at_and_others, All-at_and_others, All-both}

module _ {V : Type 0} where
  abbrev pub held : Option (Copy V) → ℕ
  held none = 0
  held (some c) = 1

  abbrev pub owns : Option (Copy V) → ℕ
  owns none = 0
  owns (some c) = if c.owned then 1 else 0

  -- The nodes with a copy of the key, and those that have it in M or E.
  unfoldable pub holders : String → List (CacheNode V) → ℕ
  holders j [] = 0
  holders j (n ∷ ns) = held (copy j n) + holders j ns

  unfoldable pub owners : String → List (CacheNode V) → ℕ
  owners j [] = 0
  owners j (n ∷ ns) = owns (copy j n) + owners j ns

  -- All copies of the key hold this value, and a node that owns the key has the only copy.
  pub record IsCoherent (j : String) (v : Option V) (ns : List (CacheNode V)) : Type 0 where
    pub valid : All (λ n. IsValid n.cache) ns
    pub agrees : All (λ n. Agrees v (copy j n)) ns
    pub alone : 1 ≤ owners j ns → holders j ns ≤ 1

  -- What a copy may become when another node reads the key, and when its line is dropped.
  abbrev pub Weaker : Option (Copy V) → Option (Copy V) → Type 0
  Weaker o o' = (o' ≡ none) ⊎ (o' ≡ o) ⊎ (o' ≡ shareable o)

  Weaker-lem :
      (v : Option V) (o o' : Option (Copy V))
      → Weaker o o'
      → (Agrees v o → Agrees v o') × (held o' ≤ held o) × (owns o' ≤ owns o)
  Weaker-lem v o o' (inl e) = rw e (λ a. tt, omega arith, omega arith)
  Weaker-lem v o o' (inr (inl e)) = rw e (λ a. a, omega arith, omega arith)
  Weaker-lem v none o' (inr (inr e)) = rw e (λ a. a, omega arith, omega arith)
  Weaker-lem v (some c) o' (inr (inr e)) = rw e (λ a. a, omega arith, omega arith)

  map-Weaker :
      (j : String) (g : CacheNode V → CacheNode V) (ns : List (CacheNode V))
      → ((n : CacheNode V) → IsValid n.cache → Weaker (copy j n) (copy j (g n)))
      → All (λ n. IsValid n.cache) ns
      → (holders j (map g ns) ≤ holders j ns) × (owners j (map g ns) ≤ owners j ns)
  unfolding holders owners
  map-Weaker j g [] weaker valid = (omega arith, omega arith)
  map-Weaker j g (n ∷ ns) weaker valid =
      let (agree, fewer, owned) = Weaker-lem none (copy j n) (copy j (g n)) (weaker n valid.0) in
      let (holders', owners') = map-Weaker j g ns weaker valid.1 in
      (omega (arith, fewer, holders'), omega (arith, owned, owners'))

  pub at_and_others-Weaker :
      (j : String) (i : ℕ) (f g : CacheNode V → CacheNode V) (ns : List (CacheNode V))
      → ((n : CacheNode V)
          → get_elem? ns i ≡ some n
          → IsValid n.cache
          → Weaker (copy j n) (copy j (f n)))
      → ((n : CacheNode V) → IsValid n.cache → Weaker (copy j n) (copy j (g n)))
      → All (λ n. IsValid n.cache) ns
      → (holders j (at_and_others i f g ns) ≤ holders j ns)
        × (owners j (at_and_others i f g ns) ≤ owners j ns)
  unfolding holders owners at_and_others
  at_and_others-Weaker j i f g [] self peer valid = (omega arith, omega arith)
  at_and_others-Weaker j zero f g (n ∷ ns) self peer valid =
      let (agree, fewer, owned) = Weaker-lem none (copy j n) (copy j (f n)) (self n refl valid.0) in
      let (holders', owners') = map-Weaker j g ns peer valid.1 in
      (omega (arith, fewer, holders'), omega (arith, owned, owners'))
  at_and_others-Weaker j (suc i) f g (n ∷ ns) self peer valid =
      let (agree, fewer, owned) = Weaker-lem none (copy j n) (copy j (g n)) (peer n valid.0) in
      let (holders', owners') = at_and_others-Weaker j i f g ns self peer valid.1 in
      (omega (arith, fewer, holders'), omega (arith, owned, owners'))

  -- A change that leaves every node valid and every copy as it was or weaker.
  pub Weaker-IsCoherent :
      (j : String) (v : Option V) (i : ℕ) (f g : CacheNode V → CacheNode V)
      (ns : List (CacheNode V))
      → ((n : CacheNode V)
          → get_elem? ns i ≡ some n
          → IsValid n.cache
          → IsValid (f n).cache × Weaker (copy j n) (copy j (f n)))
      → ((n : CacheNode V)
          → IsValid n.cache
          → IsValid (g n).cache × Weaker (copy j n) (copy j (g n)))
      → IsCoherent j v ns
      → IsCoherent j v (at_and_others i f g ns)
  Weaker-IsCoherent j v i f g ns self peer c =
      let (holders', owners') =
        at_and_others-Weaker j i f g ns (λ n at w. (self n at w).1) (λ n w. (peer n w).1) c.valid in
      record {
        valid =
            All-at_and_others (λ n. IsValid n.cache) (λ n. IsValid n.cache) i f g ns
              (λ n at w. (self n at w).0) (λ n w. (peer n w).0) c.valid;
        agrees =
            All-at_and_others (λ n. Agrees v (copy j n))
              (λ n. IsValid n.cache × Agrees v (copy j n)) i f g ns
              (λ n at w. (Weaker-lem v (copy j n) (copy j (f n)) (self n at w.0).1).0 w.1)
              (λ n w. (Weaker-lem v (copy j n) (copy j (g n)) (peer n w.0).1).0 w.1)
              (All-both (λ n. IsValid n.cache) (λ n. Agrees v (copy j n)) ns c.valid c.agrees);
        alone = λ some_owner. omega (arith, holders', c.alone (omega (arith, owners')));
      }
