-- ===== src/Cache/Reads.antt =====
-- nodes/cache_node.py: shared copies, and what serving a read does to a copy.
use tugas3_sinkronisasi_dist.Common.{
  ℕ, String, Option, none, some, List, [], ◌∷◌, ◌≡◌, refl, arith, string_eq, ◌==◌, All, Bool-cases,
  inl, inr, ◌∙◌,
}
use tugas3_sinkronisasi_dist.Cache.{CacheNode, process_remote_read}
use tugas3_sinkronisasi_dist.Cache.Lru.{IsValid}
use tugas3_sinkronisasi_dist.Cache.Copies.{Copy, copy, shareable, remote_read-copy}
use tugas3_sinkronisasi_dist.Cache.Effects.{Agrees}
use tugas3_sinkronisasi_dist.Cache.Coherence.{owns, owners, IsCoherent, Weaker}
use tugas3_sinkronisasi_dist.Cache.Places.{All-imp}

module _ {V : Type 0} where
  pub serve-Weaker :
      (now : ℕ) (k j : String) (n : CacheNode V)
      → Weaker (copy j n) (copy j (process_remote_read now k n).0)
  serve-Weaker now k j n = elim (Bool-cases (k == j)) [
    | inl same ↦ inr (inr (remote_read-copy now k j n ∙ rw same refl))
    | inr other ↦ inr (inl (remote_read-copy now k j n ∙ rw other refl))
  ]

  -- The owner is gone where each node's copy is shared.
  pub owners-none :
      (k : String) (ns : List (CacheNode V)) → All (λ n. owns (copy k n) ≡ 0) ns → owners k ns ≡ 0
  unfolding owners
  owners-none k [] h = refl
  owners-none k (n ∷ ns) h = omega (arith, h.0, owners-none k ns h.1)

  pub record Shares (k : String) (v : Option V) (n : CacheNode V) : Type 0 where
    pub valid : IsValid n.cache
    pub agrees : Agrees v (copy k n)
    pub unowned : owns (copy k n) ≡ 0

  pub shareable-lem :
      (v : Option V) (o : Option (Copy V))
      → Agrees v o
      → Agrees v (shareable o) × (owns (shareable o) ≡ 0)
  shareable-lem v none a = (tt, refl)
  shareable-lem v (some c) a = (a, refl)

  pub Shares-IsCoherent :
      (k : String) (v : Option V) (ns : List (CacheNode V))
      → All (Shares k v) ns
      → IsCoherent k v ns
  Shares-IsCoherent k v ns h =
      let unowned =
        owners-none k ns
          (All-imp (Shares k v) (λ n. owns (copy k n) ≡ 0) ns (λ n s. s.unowned) h) in
      record {
        valid = All-imp (Shares k v) (λ n. IsValid n.cache) ns (λ n s. s.valid) h;
        agrees = All-imp (Shares k v) (λ n. Agrees v (copy k n)) ns (λ n s. s.agrees) h;
        alone = λ some_owner. absurd (omega (arith, unowned));
      }
