-- ===== src/Cache/Runs.antt =====
-- nodes/cache_node.py: new nodes have no copies.
use tugas3_sinkronisasi_dist.Common.{
  ℕ, String, Option, none, List, [], ◌∷◌, ◌≡◌, refl, arith, string_eq, map, All, lookup,
}
use tugas3_sinkronisasi_dist.Cache.{CacheNode, new_node}
use tugas3_sinkronisasi_dist.Cache.Lru.{IsValid}
use tugas3_sinkronisasi_dist.Cache.Copies.{copy}
use tugas3_sinkronisasi_dist.Cache.Effects.{Agrees}
use tugas3_sinkronisasi_dist.Cache.Coherence.{owners, IsCoherent}

module _ {V : Type 0} where
  new-All :
      (P : CacheNode V → Type 0) (sizes : List ℕ)
      → ((size : ℕ) → P (new_node size))
      → All P (map new_node sizes)
  new-All P [] h = tt
  new-All P (size ∷ sizes) h = (h size, new-All P sizes h)

  owners-no_copy :
      (j : String) (ns : List (CacheNode V)) → All (λ n. copy j n ≡ none) ns → owners j ns ≡ 0
  unfolding owners
  owners-no_copy j [] h = refl
  owners-no_copy j (n ∷ ns) h = rw h.0 (omega (arith, owners-no_copy j ns h.1))

  pub new-IsCoherent :
      (j : String) (v : Option V) (sizes : List ℕ) → IsCoherent j v (map new_node sizes)
  new-IsCoherent j v sizes = record {
    valid =
        new-All (λ n. IsValid n.cache) sizes
          (λ size. record { unique = tt; bounded = omega arith });
    agrees = new-All (λ n. Agrees v (copy j n)) sizes (λ size. unfold lookup in tt);
    alone = λ some_owner. absurd (
        omega (
          arith,
          owners-no_copy j (map new_node sizes)
              (new-All (λ n. copy j n ≡ none) sizes (λ size. unfold lookup in refl)),
        ));
  }
