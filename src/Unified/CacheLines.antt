-- ===== src/Unified/CacheLines.antt =====
-- main.py: the cache handlers of `DistributedNode`, on the LruCache of nodes/cache_node.py. A handler
-- that broadcasts is split at its wait. A value that may be None is an `Option`.
use tugas3_sinkronisasi_dist.Common.{
  ℕ, ◌+◌, String, Option, none, some, List, [], ◌∷◌, if◌then◌else◌, string_eq, insert, length,
}
use tugas3_sinkronisasi_dist.Cache.Lines.{
  CacheLine, modified, shared, is_valid, is_owner, LruCache, new_line,
}
use tugas3_sinkronisasi_dist.Cache.Lines
use tugas3_sinkronisasi_dist.Replication.{Replicator, ReplicatedEntry, write}

pub record NodeCache (V : Type 0) : Type 0 where
  pub cache : LruCache V
  pub cache_hits : ℕ
  pub cache_misses : ℕ

-- The answer to a CACHE_READ.
pub data NodeReply (V : Type 0) : Type 0 where
  found : (value : Option V) → NodeReply V
  not_found : NodeReply V

-- 200 and 404 of `_handle_cache_get`
pub data CacheAnswer (V : Type 0) : Type 0 where
  hit : (value : Option V) → CacheAnswer V
  miss : CacheAnswer V

module _ {V : Type 0} where
  abbrev pub new_node_cache : (cache_max_size : ℕ) → NodeCache V
  new_node_cache cache_max_size = record {
    cache = record { max_size = cache_max_size; lines = [] };
    cache_hits = 0;
    cache_misses = 0;
  }

  -- `_process_cache_invalidate`, and `_handle_cache_invalidate` before its broadcast
  unfoldable pub node_invalidate : (key : String) → NodeCache V → NodeCache V
  node_invalidate key n = record n { cache = (Lines.invalidate key n.cache).0 }

  abbrev pub serve_line : String → CacheLine V → NodeCache V → NodeCache V × NodeReply V
  serve_line key line n =
      if is_valid line.state
      then (if is_owner line.state
          then (
            record n {
              cache = record n.cache {
                lines = insert key (record line { state = shared }) n.cache.lines;
              };
            },
            found line.value,
          )
          else (n, found line.value))
      else (n, not_found)

  -- `_process_cache_read`
  unfoldable pub node_read : (now : ℕ) (key : String) → NodeCache V → NodeCache V × NodeReply V
  node_read now key n =
      let (cache', line) = Lines.get now key n.cache in
      let n' = record n { cache = cache' } in
      elim line [ none ↦ (n', not_found) | some l ↦ serve_line key l n' ]

  abbrev pub line_value : Option (CacheLine V) → Option (Option V)
  line_value none = none
  line_value (some l) = if is_valid l.state then some l.value else none

  -- `_handle_cache_get` up to its broadcast: a hit with its value, or a miss.
  unfoldable pub begin_get :
      (now : ℕ) (key : String) → NodeCache V → NodeCache V × Option (Option V)
  begin_get now key n =
      let (cache', line) = Lines.get now key n.cache in
      elim (line_value line) [
        | none ↦ (record n { cache = cache'; cache_misses = n.cache_misses + 1 }, none)
        | some v ↦ (record n { cache = cache'; cache_hits = n.cache_hits + 1 }, some v)
      ]

  -- The value of the first reply that found the key. A send that failed is `none`.
  unfoldable pub first_found : List (Option (NodeReply V)) → Option (Option V)
  first_found [] = none
  first_found (some (found v) ∷ rs) = some v
  first_found (some not_found ∷ rs) = first_found rs
  first_found (none ∷ rs) = first_found rs

  -- `_handle_cache_get` after its broadcast.
  unfoldable pub finish_get :
      (now : ℕ) (key : String)
      → List (Option (NodeReply V))
      → NodeCache V
      → NodeCache V × CacheAnswer V
  finish_get now key replies n = elim (first_found replies) [
    | none ↦ (n, miss)
    | some v ↦ (record n { cache = (Lines.put key (new_line now key v shared) n.cache).0 }, hit v)
  ]

  -- The whole handler, where `replies` is what the broadcast of a miss returns.
  unfoldable pub node_get :
      (now : ℕ) (key : String)
      → List (Option (NodeReply V))
      → NodeCache V
      → NodeCache V × CacheAnswer V
  node_get now key replies n =
      let (n', value) = begin_get now key n in
      elim value [ some v ↦ (n', hit v) | none ↦ finish_get now key replies n' ]

  -- `_handle_cache_put` between its broadcast and `replicator.write`
  unfoldable pub node_put : (now : ℕ) (key : String) (value : Option V) → NodeCache V → NodeCache V
  node_put now key value n = record n {
    cache = (Lines.put key (new_line now key value modified) n.cache).0;
  }

  -- `_handle_cache_put` after its broadcast; the entry is what the replicator sends to the peers.
  unfoldable pub handle_put :
      (now : ℕ) (key : String) (value : Option V)
      → NodeCache V
      → Replicator (Option V)
      → NodeCache V × Replicator (Option V) × ReplicatedEntry (Option V)
  handle_put now key value n r =
      let (r', entry) = write now key value r in (node_put now key value n, r', entry)

  -- The hits, misses and lines of `_handle_cache_stats`; the hit rate is hits / (hits + misses).
  abbrev pub cache_stats : NodeCache V → ℕ × ℕ × ℕ
  cache_stats n = (n.cache_hits, n.cache_misses, length n.cache.lines)
