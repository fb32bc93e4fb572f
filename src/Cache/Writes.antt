-- ===== src/Cache/Writes.antt =====
-- nodes/cache_node.py: what an invalidation does to a copy.
use tugas3_sinkronisasi_dist.Common.{
  ◌≤◌, String, Option, none, some, refl, arith, string_eq, ◌==◌, Bool-cases, inl, inr, ◌∙◌,
}
use tugas3_sinkronisasi_dist.Cache.{CacheNode, process_invalidate, handle_invalidate}
use tugas3_sinkronisasi_dist.Cache.Copies.{Copy, copy, invalidate-copy}
use tugas3_sinkronisasi_dist.Cache.Coherence.{held, Weaker}

module _ {V : Type 0} where
  pub invalidate-Weaker :
      (k j : String) (n : CacheNode V) → Weaker (copy j n) (copy j (process_invalidate k n).0)
  invalidate-Weaker k j n = elim (Bool-cases (k == j)) [
    | inl same ↦ inl (invalidate-copy k j n ∙ rw same refl)
    | inr other ↦ inr (inl (invalidate-copy k j n ∙ rw other refl))
  ]

  pub drop-Weaker :
      (k j : String) (n : CacheNode V) → Weaker (copy j n) (copy j (handle_invalidate k n))
  unfolding handle_invalidate process_invalidate
  drop-Weaker k j n = invalidate-Weaker k j n

  pub held-le : (o : Option (Copy V)) → held o ≤ 1
  held-le none = omega arith
  held-le (some c) = omega arith
