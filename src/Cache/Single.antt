-- ===== src/Cache/Single.antt =====
-- nodes/cache_node.py: lemmas on a change of one node of a cluster.
use tugas3_sinkronisasi_dist.Common.{
  ℕ, zero, suc, ◌≤◌, String, Option, none, some, List, [], ◌∷◌, ◌≡◌, refl, arith, string_eq, nat_eq,
  map, All, get_elem?, length, ap, ◌∙◌, ◌⊎◌, inl, inr, subst,
}
use tugas3_sinkronisasi_dist.Cache.{CacheNode}
use tugas3_sinkronisasi_dist.Cache.Lru.{IsValid}
use tugas3_sinkronisasi_dist.Cache.Copies.{Copy, copy}
use tugas3_sinkronisasi_dist.Cache.Coherence.{
  held, owns, holders, owners, IsCoherent, Weaker, Weaker-IsCoherent, at_and_others-Weaker,
}
use tugas3_sinkronisasi_dist.Cache.Network.{at_node}
use tugas3_sinkronisasi_dist.Cache.Places.{at_and_others}

module _ {A : Type 0} where
  map_id : (xs : List A) → map (λ x. x) xs ≡ xs
  map_id [] = refl
  map_id (x ∷ xs) = ap (◌∷◌ x) (map_id xs)

  pub at_and_others-at_node :
      (i : ℕ) (f : A → A) (xs : List A) → at_and_others i f (λ x. x) xs ≡ at_node i f xs
  unfolding at_and_others at_node
  at_and_others-at_node i f [] = refl
  at_and_others-at_node zero f (x ∷ xs) = ap (◌∷◌ (f x)) (map_id xs)
  at_and_others-at_node (suc i) f (x ∷ xs) = ap (◌∷◌ x) (at_and_others-at_node i f xs)

  pub length-at_node : (i : ℕ) (f : A → A) (xs : List A) → length (at_node i f xs) ≡ length xs
  unfolding at_node
  length-at_node i f [] = refl
  length-at_node zero f (x ∷ xs) = refl
  length-at_node (suc i) f (x ∷ xs) = ap suc (length-at_node i f xs)

  -- A node after the change is an old one, changed if it stands at the place.
  pub get_elem?-at_node :
      (i q : ℕ) (f : A → A) (xs : List A) (x : A)
      → get_elem? (at_node i f xs) q ≡ some x
      → (y : A) × (get_elem? xs q ≡ some y) × ((x ≡ y) ⊎ ((x ≡ f y) × (q ≡ i)))
  unfolding at_node
  get_elem?-at_node i q f [] x at = absurd cc
  get_elem?-at_node zero zero f (y ∷ xs) x at = (y, refl, inr (cc, refl))
  get_elem?-at_node zero (suc q) f (y ∷ xs) x at = (x, at, inl refl)
  get_elem?-at_node (suc i) zero f (y ∷ xs) x at = (x, at, inl refl)
  get_elem?-at_node (suc i) (suc q) f (y ∷ xs) x at =
      let (z, at', from) = get_elem?-at_node i q f xs x at in
      (z, at', elim from [ inl e ↦ inl e | inr (e, e') ↦ inr (e, ap suc e') ])

  pub get_elem?-at_place :
      (i : ℕ) (f : A → A) (xs : List A) (x : A)
      → get_elem? (at_node i f xs) i ≡ some x
      → (y : A) × (x ≡ f y)
  unfolding at_node
  get_elem?-at_place i f [] x at = absurd cc
  get_elem?-at_place zero f (y ∷ xs) x at = (y, cc)
  get_elem?-at_place (suc i) f (y ∷ xs) x at = get_elem?-at_place i f xs x at

  -- What each node has, and the changed one after the change.
  pub All-at_node :
      (P Q : A → Type 0) (i : ℕ) (f : A → A) (xs : List A)
      → ((x : A) → Q x → P (f x))
      → ((x : A) → Q x → P x)
      → All Q xs
      → All P (at_node i f xs)
  unfolding at_node
  All-at_node P Q i f [] change keep q = tt
  All-at_node P Q zero f (x ∷ xs) change keep q = (change x q.0, rest xs q.1)
    where
      rest : (xs : List A) → All Q xs → All P xs
      rest [] q = tt
      rest (x ∷ xs) q = (keep x q.0, rest xs q.1)
  All-at_node P Q (suc i) f (x ∷ xs) change keep q =
      (keep x q.0, All-at_node P Q i f xs change keep q.1)

module _ {V : Type 0} where
  owns-le : (o : Option (Copy V)) → owns o ≤ held o
  owns-le none = omega arith
  owns-le (some c) = ground arith

  pub owners-le : (j : String) (ns : List (CacheNode V)) → owners j ns ≤ holders j ns
  unfolding owners holders
  owners-le j [] = omega arith
  owners-le j (n ∷ ns) = omega (arith, owns-le (copy j n), owners-le j ns)

  pub owners-All :
      (j : String) (ns : List (CacheNode V)) → owners j ns ≡ 0 → All (λ n. owns (copy j n) ≡ 0) ns
  unfolding owners
  owners-All j [] h = tt
  owners-All j (n ∷ ns) h = (omega (arith, h), owners-All j ns (omega (arith, h)))

  -- A change that weakens copies of the key at most keeps coherence, and makes no owner.
  pub weaken-IsCoherent :
      (j : String) (v : Option V) (i : ℕ) (f : CacheNode V → CacheNode V) (ns : List (CacheNode V))
      → ((n : CacheNode V)
          → IsValid n.cache
          → IsValid (f n).cache × Weaker (copy j n) (copy j (f n)))
      → IsCoherent j v ns
      → IsCoherent j v (at_node i f ns) × (owners j (at_node i f ns) ≤ owners j ns)
  weaken-IsCoherent j v i f ns weaker c = (
    subst (IsCoherent j v) (at_and_others-at_node i f ns) (
        Weaker-IsCoherent j v i f (λ n. n) ns (λ n at w. weaker n w) (λ n w. (w, inr (inl refl)))
          c),
    subst (λ ns'. owners j ns' ≤ owners j ns) (at_and_others-at_node i f ns)
        (at_and_others-Weaker j i f (λ n. n) ns (λ n at w. (weaker n w).1) (λ n w. inr (inl refl))
          c.valid).1,
  )

  no_holder-owners : (j : String) (ns : List (CacheNode V)) → holders j ns ≡ 0 → owners j ns ≡ 0
  no_holder-owners j ns h = omega (arith, h, owners-le j ns)

  held-some : (o : Option (Copy V)) (c : Copy V) → o ≡ some c → held o ≡ 1
  held-some o c e = rw e refl

  -- Where the changed node has the only copy, and no longer owns it, nobody owns it.
  pub only_holder :
      (j : String) (i : ℕ) (f : CacheNode V → CacheNode V) (n : CacheNode V) (c : Copy V)
      (ns : List (CacheNode V))
      → get_elem? ns i ≡ some n
      → copy j n ≡ some c
      → owns (copy j (f n)) ≡ 0
      → holders j ns ≤ 1
      → owners j (at_node i f ns) ≡ 0
  unfolding owners holders at_node
  only_holder j i f n c [] at has unowned one = absurd cc
  only_holder j zero f n c (m ∷ ns) at has unowned one =
      let e : m ≡ n = cc in
      let h : held (copy j m) ≡ 1 =
        ap (λ (n : CacheNode V). held (copy j n)) e ∙ held-some (copy j n) c has in
      let o : owns (copy j (f m)) ≡ 0 = ap (λ (n : CacheNode V). owns (copy j (f n))) e ∙ unowned in
      omega (arith, o, no_holder-owners j ns (omega (arith, h, one)))
  only_holder j (suc i) f n c (m ∷ ns) at has unowned one =
      let some_holder : 1 ≤ holders j ns = holder_at i ns at in
      omega (
        arith,
        owns-le (copy j m),
        only_holder j i f n c ns at has unowned (omega (arith, one)),
        some_holder,
        one,
      )
    where
      holder_at : (i : ℕ) (ns : List (CacheNode V)) → get_elem? ns i ≡ some n → 1 ≤ holders j ns
      holder_at i [] at = absurd cc
      holder_at zero (m ∷ ns) at =
          let e : m ≡ n = cc in
          let h : held (copy j m) ≡ 1 =
            ap (λ (n : CacheNode V). held (copy j n)) e ∙ held-some (copy j n) c has in
          omega (arith, h)
      holder_at (suc i) (m ∷ ns) at = omega (arith, holder_at i ns at)
