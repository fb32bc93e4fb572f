-- ===== src/Cache/Copies.antt =====
-- nodes/cache_node.py: what the handlers of a node do to its copy of each key.
use tugas3_sinkronisasi_dist.Common.{
  ℕ, String, Bool, false, Option, none, some, ◌≡◌, refl, arith, if◌then◌else◌, string_eq, ◌==◌,
  lookup, lookup-insert, Option-cases, inl, inr, ◌⊎◌, ◌∙◌, beq_refl, beq_eq,
}
use tugas3_sinkronisasi_dist.Cache.{
  CacheNode, put_line, process_invalidate, process_remote_read, begin_read, hit_value, answer_read,
}
use tugas3_sinkronisasi_dist.Cache.Lines.{
  shared, invalid, CacheLine, CacheLineState, LruCache, get, invalidate, is_valid, is_owner, touch,
}
use tugas3_sinkronisasi_dist.Common.{IsUnique}
use tugas3_sinkronisasi_dist.Cache.Unique.{lookup-move_to_end}
use tugas3_sinkronisasi_dist.Cache.Lru.{lookup-put}

-- A copy that may be read: whether the node owns the key alone (M or E), and the value.
pub record Copy (V : Type 0) : Type 0 where
  pub owned : Bool
  pub value : Option V

module _ {V : Type 0} where
  abbrev pub visible : Option (CacheLine V) → Option (Copy V)
  visible none = none
  visible (some l) =
      if is_valid l.state then some (record { owned = is_owner l.state; value = l.value }) else none

  -- The node's copy of a key, `none` where it has none or an invalid one.
  abbrev pub copy : String → CacheNode V → Option (Copy V)
  copy j n = visible (lookup j n.cache.lines)

  pub get-copy :
      (now : ℕ) (k j : String) (c : LruCache V)
      → visible (lookup j (get now k c).0.lines) ≡ visible (lookup j c.lines)
  unfolding get
  get-copy now k j c = elim (Option-cases (lookup k c.lines)) [
    | inl absent ↦ rw (absent, get)
    | inr (l, present) ↦
        ground (arith, present, lookup-move_to_end k j (touch now l) c.lines, beq_eq k j)
  ]

  abbrev pub value_of : Option (Copy V) → Option (Option V)
  value_of none = none
  value_of (some c) = some c.value

  abbrev pub shareable : Option (Copy V) → Option (Copy V)
  shareable none = none
  shareable (some c) = some (record c { owned = false })

  serve-copy :
      (k j : String) (l : CacheLine V) (n : CacheNode V)
      → lookup k n.cache.lines ≡ some l
      → copy j (answer_read k l n).0 ≡ (if k == j then shareable (copy j n) else copy j n)
  serve-copy k j l n present = go l.state refl
    where
      go :
          (s : CacheLineState)
          → l.state ≡ s
          → copy j (answer_read k l n).0 ≡ (if k == j then shareable (copy j n) else copy j n)
      go s e = ground (
        arith,
        e,
        present,
        lookup-insert k j (record l { state = shared }) n.cache.lines,
        beq_eq k j,
      )

  pub get-present :
      (now : ℕ) (k : String) (l : CacheLine V) (c : LruCache V)
      → lookup k c.lines ≡ some l
      → ((get now k c).1 ≡ some (touch now l))
        × (lookup k (get now k c).0.lines ≡ some (touch now l))
  unfolding get
  get-present now k l c present = (
    rw (present, get) refl,
    ground (arith, present, lookup-move_to_end k k (touch now l) c.lines, beq_refl k),
  )

  pub get-absent :
      (now : ℕ) (k : String) (c : LruCache V)
      → lookup k c.lines ≡ none
      → ((get now k c).1 ≡ none) × ((get now k c).0 ≡ c)
  unfolding get
  get-absent now k c absent = (rw (absent, get) refl, rw (absent, get) refl)

  -- A remote read takes the ownership away, and nothing else.
  pub remote_read-copy :
      (now : ℕ) (k j : String) (n : CacheNode V)
      → copy j (process_remote_read now k n).0 ≡ (if k == j then shareable (copy j n) else copy j n)
  unfolding process_remote_read
  remote_read-copy now k j n = elim (Option-cases (lookup k n.cache.lines)) [
    | inl absent ↦
        let (got, kept) = get-absent now k n.cache absent in
        ground (arith, got, kept, absent, beq_eq k j)
    | inr (l, present) ↦
        let (got, kept) = get-present now k l n.cache present in
        rw (got, process_remote_read)
          (serve-copy k j (touch now l) (record n { cache = (get now k n.cache).0 }) kept
            ∙ rw (get-copy now k j n.cache) refl)
  ]

  -- An invalidation takes the copy away, and no other.
  pub invalidate-copy :
      (k j : String) (n : CacheNode V)
      → copy j (process_invalidate k n).0 ≡ (if k == j then none else copy j n)
  unfolding process_invalidate invalidate
  invalidate-copy k j n = elim (Option-cases (lookup k n.cache.lines)) [
    | inl absent ↦ ground (arith, absent, beq_eq k j)
    | inr (l, present) ↦
        ground (
          arith,
          present,
          lookup-insert k j (record l { state = invalid }) n.cache.lines,
          beq_eq k j,
        )
  ]

  -- A read that hits returns the value of the copy, and no read of the own cache changes a copy.
  pub begin_read-copy :
      (now : ℕ) (k j : String) (n : CacheNode V) → copy j (begin_read now k n).0 ≡ copy j n
  unfolding begin_read
  begin_read-copy now k j n = elim (Option-cases (hit_value (get now k n.cache).1)) [
    | inl miss ↦ rw (miss, begin_read) (get-copy now k j n.cache)
    | inr (v, hit) ↦ rw (hit, begin_read) (get-copy now k j n.cache)
  ]

  pub begin_read-value :
      (now : ℕ) (k : String) (n : CacheNode V) → (begin_read now k n).1 ≡ value_of (copy k n)
  unfolding begin_read
  begin_read-value now k n = elim (Option-cases (lookup k n.cache.lines)) [
    | inl absent ↦ let (got, kept) = get-absent now k n.cache absent in ground (arith, got, absent)
    | inr (l, present) ↦
        let (got, kept) = get-present now k l n.cache present in ground (arith, got, present)
  ]

  -- Putting a line gives its copy to the key, and may evict any.
  pub put_line-copy :
      (k j : String) (l : CacheLine V) (n : CacheNode V)
      → IsUnique n.cache.lines
      → (copy j (put_line k l n) ≡ none)
        ⊎ (copy j (put_line k l n) ≡ (if k == j then visible (some l) else copy j n))
  unfolding put_line
  put_line-copy k j l n u = elim (lookup-put k j l n.cache u) [
    | inl same ↦ inr (ground (arith, same))
    | inr gone ↦ inl (ground (arith, gone))
  ]
