-- ===== src/Cache/Validity.antt =====
-- nodes/cache_node.py: every handler of a node keeps its cache valid.
use tugas3_sinkronisasi_dist.Common.{
  ℕ, String, Option, none, some, List, [], ◌∷◌, ◌≡◌, arith, string_eq, length, Dict, lookup, insert,
  Bool-cases, Option-cases, inl, inr,
}
use tugas3_sinkronisasi_dist.Cache.{
  CacheNode, ReadReply, found_value, put_line, process_invalidate, process_remote_read,
  process_update, begin_read, finish_read, finish_write, handle_invalidate, hit_value, answer_read,
  store, written_line,
}
use tugas3_sinkronisasi_dist.Cache.Lines.{
  shared, invalid, CacheLine, LruCache, get, invalidate, touch, new_line, is_valid, is_owner,
}
use tugas3_sinkronisasi_dist.Common.{IsUnique-insert}
use tugas3_sinkronisasi_dist.Cache.Lru.{IsValid, put-IsValid, get-IsValid}
use tugas3_sinkronisasi_dist.Cache.Copies.{get-present, get-absent}

module _ {V : Type 0} where
  -- Writing to a key that is there adds no line.
  length-insert_present :
      (k : String) (l old : CacheLine V) (d : Dict String (CacheLine V))
      → lookup k d ≡ some old
      → length (insert k l d) ≡ length d
  unfolding insert lookup
  length-insert_present k l old [] h = absurd cc
  length-insert_present k l old ((i, x) ∷ d) h = ground (arith, length-insert_present k l old d)

  store-IsValid :
      (k : String) (l old : CacheLine V) (n : CacheNode V)
      → lookup k n.cache.lines ≡ some old
      → IsValid n.cache
      → IsValid (store k l n).cache
  store-IsValid k l old n h v = record {
    unique = IsUnique-insert k l n.cache.lines v.unique;
    bounded = omega (arith, length-insert_present k l old n.cache.lines h, v.bounded);
  }

  invalidate-IsValid : (k : String) (c : LruCache V) → IsValid c → IsValid (invalidate k c).0
  unfolding invalidate
  invalidate-IsValid k c v = elim (Option-cases (lookup k c.lines)) [
    | inl absent ↦ rw (absent, invalidate) v
    | inr (l, present) ↦
        rw (present, invalidate)
          (record {
            unique = IsUnique-insert k (record l { state = invalid }) c.lines v.unique;
            bounded = omega (
              arith,
              length-insert_present k (record l { state = invalid }) l c.lines present,
              v.bounded,
            );
          })
  ]

  answer_read-IsValid :
      (k : String) (l old : CacheLine V) (n : CacheNode V)
      → lookup k n.cache.lines ≡ some old
      → IsValid n.cache
      → IsValid (answer_read k l n).0.cache
  answer_read-IsValid k l old n h v = elim (Bool-cases (is_valid l.state)) [
    | inr no_copy ↦ rw no_copy v
    | inl copy ↦ elim (Bool-cases (is_owner l.state)) [
      | inl owner ↦ rw (copy, owner) (store-IsValid k (record l { state = shared }) old n h v)
      | inr sharer ↦ rw (copy, sharer) v
    ]
  ]

  pub remote_read-IsValid :
      (now : ℕ) (k : String) (n : CacheNode V)
      → IsValid n.cache
      → IsValid (process_remote_read now k n).0.cache
  unfolding process_remote_read
  remote_read-IsValid now k n v = elim (Option-cases (lookup k n.cache.lines)) [
    | inl absent ↦
        rw ((get-absent now k n.cache absent).0, process_remote_read) (get-IsValid now k n.cache v)
    | inr (l, present) ↦
        let (got, kept) = get-present now k l n.cache present in
        rw (got, process_remote_read)
          (answer_read-IsValid k (touch now l) (touch now l)
            (record n { cache = (get now k n.cache).0 }) kept (get-IsValid now k n.cache v))
  ]

  pub update-IsValid :
      (now : ℕ) (k : String) (value : Option V) (n : CacheNode V)
      → IsValid n.cache
      → IsValid (process_update now k value n).cache
  unfolding process_update
  update-IsValid now k value n v = elim (Option-cases (lookup k n.cache.lines)) [
    | inl absent ↦
        rw ((get-absent now k n.cache absent).0, process_update) (get-IsValid now k n.cache v)
    | inr (l, present) ↦
        let (got, kept) = get-present now k l n.cache present in
        rw (got, process_update)
          (store-IsValid k (record (touch now l) { value = value; state = shared }) (touch now l)
            (record n { cache = (get now k n.cache).0 }) kept (get-IsValid now k n.cache v))
  ]

  pub process_invalidate-IsValid :
      (k : String) (n : CacheNode V) → IsValid n.cache → IsValid (process_invalidate k n).0.cache
  unfolding process_invalidate
  process_invalidate-IsValid k n v = invalidate-IsValid k n.cache v

  pub handle_invalidate-IsValid :
      (k : String) (n : CacheNode V) → IsValid n.cache → IsValid (handle_invalidate k n).cache
  unfolding handle_invalidate
  handle_invalidate-IsValid k n v = invalidate-IsValid k n.cache v

  pub begin_read-IsValid :
      (now : ℕ) (k : String) (n : CacheNode V)
      → IsValid n.cache
      → IsValid (begin_read now k n).0.cache
  unfolding begin_read
  begin_read-IsValid now k n v = elim (Option-cases (hit_value (get now k n.cache).1)) [
    | inl miss ↦ rw (miss, begin_read) (get-IsValid now k n.cache v)
    | inr (w, hit) ↦ rw (hit, begin_read) (get-IsValid now k n.cache v)
  ]

  pub finish_read-IsValid :
      (now : ℕ) (k : String) (rs : List (Option (ReadReply V))) (n : CacheNode V)
      → IsValid n.cache
      → IsValid (finish_read now k rs n).0.cache
  unfolding finish_read put_line
  finish_read-IsValid now k rs n v = elim (Option-cases (found_value none rs)) [
    | inl nothing ↦ rw (nothing, finish_read) v
    | inr (w, e) ↦
        rw (e, finish_read) (put-IsValid k (new_line now k (some w) shared) n.cache v.unique)
  ]

  pub finish_write-IsValid :
      (now : ℕ) (k : String) (value : Option V) (n : CacheNode V)
      → IsValid n.cache
      → IsValid (finish_write now k value n).cache
  unfolding finish_write put_line
  finish_write-IsValid now k value n v =
      let (cache', line) = get now k n.cache in
      put-IsValid k (written_line now k value line) cache' (get-IsValid now k n.cache v).unique
