-- ===== src/Cache/Losses.antt =====
-- nodes/cache_node.py: where a value that was written can no longer be read, and where a stale one can.
use tugas3_sinkronisasi_dist.Common.{
  ℕ, ◌≤◌, String, true, false, Option, none, some, List, [], ◌∷◌, ◌≡◌, refl, arith, string_eq, ◌==◌,
  length, Option-cases, inl, inr, lookup, Dict, ap, ◌∙◌, beq_refl, beq_eq,
}
use tugas3_sinkronisasi_dist.Cache.{
  CacheNode, ReadReply, found_value, process_invalidate, begin_read, finish_read, finish_write,
  put_line, written_line, hit_value, ReadReply,
}
use tugas3_sinkronisasi_dist.Cache.Lru.{put_lem, IsValid, get-max_size, lookup-put_self}
use tugas3_sinkronisasi_dist.Cache.Lines.{get, CacheLine, shared, new_line, invalidate}
use tugas3_sinkronisasi_dist.Cache.Copies.{Copy, copy, visible, invalidate-copy}
use tugas3_sinkronisasi_dist.Cache.Effects.{written-visible}
use tugas3_sinkronisasi_dist.Cache.Validity.{finish_write-IsValid}

module _ {V : Type 0} where
  finish_write-lookup :
      (now : ℕ) (k : String) (v : Option V) (n : CacheNode V)
      → 1 ≤ n.cache.max_size
      → lookup k (finish_write now k v n).cache.lines
        ≡ some (written_line now k v (get now k n.cache).1)
  unfolding finish_write put_line
  finish_write-lookup now k v n room =
      let (cache', line) = get now k n.cache in
      lookup-put_self k (written_line now k v line) cache'
        (omega (arith, get-max_size now k n.cache))

  finish_write-max_size :
      (now : ℕ) (k : String) (v : Option V) (n : CacheNode V)
      → (finish_write now k v n).cache.max_size ≡ n.cache.max_size
  unfolding finish_write put_line
  finish_write-max_size now k v n =
      let (cache', line) = get now k n.cache in
      let (left, out, size) = put_lem k (written_line now k v line) cache' in
      size ∙ get-max_size now k n.cache

  finish_write-holds :
      (now : ℕ) (k : String) (v : Option V) (n : CacheNode V)
      → 1 ≤ n.cache.max_size
      → copy k (finish_write now k v n) ≡ some (record { owned = true; value = v })
  finish_write-holds now k v n room =
      ap visible (finish_write-lookup now k v n room)
      ∙ written-visible now k v (get now k n.cache).1

  -- A cache of one line has no copy of any other key than the one that it holds.
  lookup-single :
      (k k' : String) (l : CacheLine V) (d : Dict String (CacheLine V))
      → length d ≤ 1
      → (k' == k) ≡ false
      → lookup k' d ≡ some l
      → lookup k d ≡ none
  unfolding lookup
  lookup-single k k' l [] short other h = refl
  lookup-single k k' l ((i, x) ∷ []) short other h =
      ground (arith, beq_eq i k', beq_eq i k, beq_refl k')
  lookup-single k k' l (e ∷ e' ∷ d) short other h = absurd (omega arith)

  second_write-copy :
      (now : ℕ) (k k' : String) (v' : Option V) (n : CacheNode V)
      → IsValid n.cache
      → n.cache.max_size ≡ 1
      → (k' == k) ≡ false
      → copy k (finish_write now k' v' n) ≡ none
  second_write-copy now k k' v' n w one other =
      let n' = finish_write now k' v' n in
      let short : length n'.cache.lines ≤ 1 =
        let w' = (finish_write-IsValid now k' v' n w).bounded in
        omega (arith, w', finish_write-max_size now k' v' n, one) in
      ap visible (
        lookup-single k k' (written_line now k' v' (get now k' n.cache).1) n'.cache.lines short
          other (finish_write-lookup now k' v' n (omega arith)))

  begin_read-max_size :
      (now : ℕ) (k : String) (n : CacheNode V)
      → (begin_read now k n).0.cache.max_size ≡ n.cache.max_size
  unfolding begin_read
  begin_read-max_size now k n = elim (Option-cases (hit_value (get now k n.cache).1)) [
    | inl miss ↦ rw (miss, begin_read) (get-max_size now k n.cache)
    | inr (v, hit) ↦ rw (hit, begin_read) (get-max_size now k n.cache)
  ]

  invalidate-max_size :
      (k : String) (n : CacheNode V) → (process_invalidate k n).0.cache.max_size ≡ n.cache.max_size
  unfolding process_invalidate invalidate
  invalidate-max_size k n = elim (Option-cases (lookup k n.cache.lines)) [
    | inl absent ↦ ground (arith, absent)
    | inr (l, present) ↦ ground (arith, present)
  ]

  -- A write to another key by a node with room for one line evicts what it wrote before.
  pub eviction_loses_write :
      (now now' : ℕ) (k k' : String) (v v' : Option V) (n : CacheNode V)
      → IsValid n.cache
      → n.cache.max_size ≡ 1
      → (k' == k) ≡ false
      → (copy k (finish_write now k v n) ≡ some (record { owned = true; value = v }))
        × (copy k (finish_write now' k' v' (finish_write now k v n)) ≡ none)
  eviction_loses_write now now' k k' v v' n w one other = (
    finish_write-holds now k v n (omega (arith, one)),
    second_write-copy now' k k' v' (finish_write now k v n) (finish_write-IsValid now k v n w)
        (finish_write-max_size now k v n ∙ one) other,
  )

  -- A read whose replies were sent before another node wrote the key, and that goes on after it, leaves
  -- the old value in a shared copy beside the writer's new one.
  pub late_fill_is_stale :
      (now : ℕ) (k : String) (old new : V) (rs : List (Option (ReadReply V)))
      (me writer : CacheNode V)
      → found_value none rs ≡ some old
      → 1 ≤ me.cache.max_size
      → 1 ≤ writer.cache.max_size
      → (copy k (finish_read now k rs (process_invalidate k (begin_read now k me).0).0).0
          ≡ some (record { owned = false; value = some old }))
        × (copy k (finish_write now k (some new) writer)
            ≡ some (record { owned = true; value = some new }))
  late_fill_is_stale now k old new rs me writer replied room room' =
      let n = (process_invalidate k (begin_read now k me).0).0 in
      let size : n.cache.max_size ≡ me.cache.max_size =
        invalidate-max_size k (begin_read now k me).0 ∙ begin_read-max_size now k me in
      let filled : copy k (put_line k (new_line now k (some old) shared) n)
          ≡ some (record { owned = false; value = some old }) =
        unfold put_line in
        ap visible
          (lookup-put_self k (new_line now k (some old) shared) n.cache (omega (arith, size))) in
      (
        unfold finish_read in rw (replied, finish_read) filled,
        finish_write-holds now k (some new) writer room',
      )

  -- A node that has a copy drops it and answers that it had none.
  pub invalidate_denies_copy :
      (k : String) (c : Copy V) (n : CacheNode V)
      → copy k n ≡ some c
      → (copy k (process_invalidate k n).0 ≡ none) × ((process_invalidate k n).1 ≡ false)
  unfolding process_invalidate invalidate
  invalidate_denies_copy k c n h = (
    invalidate-copy k k n ∙ rw (beq_refl k) refl,
    elim (Option-cases (lookup k n.cache.lines)) [
      | inl absent ↦ ground (arith, absent)
      | inr (l, present) ↦ ground (arith, present)
    ],
  )
