-- ===== src/Cache/Effects.antt =====
-- nodes/cache_node.py: what a read and a write do to the copies of the node that runs them, and what it
-- answers to a CACHE_READ.
use tugas3_sinkronisasi_dist.Common.{
  ℕ, String, true, false, Option, none, some, List, ◌≡◌, refl, arith, if◌then◌else◌, string_eq,
  ◌==◌, lookup, Bool-cases, Option-cases, inl, inr, ◌⊎◌, ◌∙◌,
}
use tugas3_sinkronisasi_dist.Cache.{
  CacheNode, ReadReply, found, not_found, found_value, process_remote_read, finish_read,
  finish_write, hit_value, answer_read, written_line,
}
use tugas3_sinkronisasi_dist.Cache.Lines.{shared, CacheLine, CacheLineState, get, touch, new_line}
use tugas3_sinkronisasi_dist.Common.{IsUnique}
use tugas3_sinkronisasi_dist.Cache.Lru.{get-IsUnique}
use tugas3_sinkronisasi_dist.Cache.Copies.{
  Copy, copy, visible, value_of, get-copy, get-present, get-absent, put_line-copy,
}

module _ {V : Type 0} where
  abbrev pub offered : ReadReply V → Option (Option V)
  offered (found v state) = some v
  offered not_found = none

  -- A copy holds this value, if it is there.
  abbrev pub Agrees : Option V → Option (Copy V) → Type 0
  Agrees v none = Unit
  Agrees v (some c) = c.value ≡ v

  answer_read-value :
      (k : String) (l : CacheLine V) (n : CacheNode V)
      → offered (answer_read k l n).1 ≡ hit_value (some l)
  answer_read-value k l n = go l.state refl
    where
      go : (s : CacheLineState) → l.state ≡ s → offered (answer_read k l n).1 ≡ hit_value (some l)
      go s e = ground (arith, e)

  pub remote_read-value :
      (now : ℕ) (k : String) (n : CacheNode V)
      → offered (process_remote_read now k n).1 ≡ value_of (copy k n)
  unfolding process_remote_read
  remote_read-value now k n = elim (Option-cases (lookup k n.cache.lines)) [
    | inl absent ↦ let (got, kept) = get-absent now k n.cache absent in ground (arith, got, absent)
    | inr (l, present) ↦
        let (got, kept) = get-present now k l n.cache present in
        rw (got, process_remote_read)
          (answer_read-value k (touch now l) (record n { cache = (get now k n.cache).0 })
            ∙ ground (arith, present))
  ]

  pub finish_read-copy :
      (now : ℕ) (k j : String) (rs : List (Option (ReadReply V))) (n : CacheNode V)
      → IsUnique n.cache.lines
      → (copy j (finish_read now k rs n).0 ≡ none)
        ⊎ (copy j (finish_read now k rs n).0 ≡ copy j n)
        ⊎ ((w : V) × ((k == j) ≡ true)
            × (found_value none rs ≡ some w)
            × (copy j (finish_read now k rs n).0 ≡ some (record { owned = false; value = some w })))
  unfolding finish_read
  finish_read-copy now k j rs n u = elim (Option-cases (found_value none rs)) [
    | inl nothing ↦ inr (inl (rw (nothing, finish_read) refl))
    | inr (v, e) ↦ elim (put_line-copy k j (new_line now k (some v) shared) n u) [
      | inl gone ↦ inl (rw (e, finish_read) gone)
      | inr placed ↦ elim (Bool-cases (k == j)) [
        | inl same ↦ inr (inr (v, same, e, rw (e, finish_read) (placed ∙ rw same refl)))
        | inr other ↦ inr (inl (rw (e, finish_read) (placed ∙ rw other refl)))
      ]
    ]
  ]

  pub written-visible :
      (now : ℕ) (k : String) (v : Option V) (o : Option (CacheLine V))
      → visible (some (written_line now k v o)) ≡ some (record { owned = true; value = v })
  written-visible now k v none = refl
  written-visible now k v (some l) = refl

  pub finish_write-copy :
      (now : ℕ) (k j : String) (v : Option V) (n : CacheNode V)
      → IsUnique n.cache.lines
      → (copy j (finish_write now k v n) ≡ none)
        ⊎ (copy j (finish_write now k v n)
            ≡ (if k == j then some (record { owned = true; value = v }) else copy j n))
  unfolding finish_write
  finish_write-copy now k j v n u =
      let (cache', line) = get now k n.cache in
      elim (put_line-copy k j (written_line now k v line) (record n { cache = cache' })
        (get-IsUnique now k n.cache u)) [
          | inl gone ↦ inl gone
          | inr placed ↦
              inr (placed ∙ rw (written-visible now k v line, get-copy now k j n.cache) refl)
        ]
