-- ===== src/Cache/Unique.antt =====
-- nodes/cache_node.py: dictionaries of lines in which no key stands twice.
use tugas3_sinkronisasi_dist.Common.{
  String, some, ◌≡◌, arith, if◌then◌else◌, string_eq, ◌==◌, Dict, lookup, lookup-append, IsUnique,
  IsUnique-pop, IsUnique-append, pop, lookup-insert, lookup-pop, Option-cases, inl, inr, beq_refl,
}
use tugas3_sinkronisasi_dist.Cache.Lines.{CacheLine, move_to_end, set_last}

module _ {V : Type 0} where
  pub lookup-move_to_end :
      (k j : String) (l : CacheLine V) (d : Dict String (CacheLine V))
      → lookup j (move_to_end k l d) ≡ (if k == j then some l else lookup j d)
  unfolding move_to_end
  lookup-move_to_end k j l d = ground (arith, lookup-append j k l (pop k d), lookup-pop k j d)

  pub lookup-set_last :
      (k j : String) (l : CacheLine V) (d : Dict String (CacheLine V))
      → lookup j (set_last k l d) ≡ (if k == j then some l else lookup j d)
  unfolding set_last
  lookup-set_last k j l d = elim (Option-cases (lookup k d)) [
    | inl absent ↦ ground (arith, absent, lookup-insert k j l d)
    | inr (old, present) ↦
        ground
          (arith, present, lookup-insert k j l (move_to_end k old d), lookup-move_to_end k j old d)
  ]

  pub IsUnique-move_to_end :
      (k : String) (l : CacheLine V) (d : Dict String (CacheLine V))
      → IsUnique d
      → IsUnique (move_to_end k l d)
  unfolding move_to_end
  IsUnique-move_to_end k l d u =
      IsUnique-append k l (pop k d) (ground (arith, lookup-pop k k d, beq_refl k))
        (IsUnique-pop k d u)
