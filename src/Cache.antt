-- ===== src/Cache.antt =====
-- nodes/cache_node.py: the MESI handlers of `CacheNode`. A cache line is an object that the cache and
-- its caller share, so a change to it is written back under its key. The clock is the argument `now`; a
-- value that may be None is an `Option`. A method that broadcasts is split at its wait.
pub mod Lines
pub mod Unique
pub mod Lru
pub mod Copies
pub mod Network
pub mod Single
pub mod Sound
pub mod Received
pub mod Fills
pub mod Saves
pub mod Orderly
pub mod Effects
pub mod Validity
pub mod Places
pub mod Coherence
pub mod Writes
pub mod Reads
pub mod Runs
pub mod Losses
pub mod Tests
use tugas3_sinkronisasi_dist.Common.{
  ℕ, ◌+◌, String, Bool, true, false, Option, none, some, List, [], ◌∷◌, if◌then◌else◌, string_eq,
  length, Dict, lookup, insert,
}
use Lines.{
  CacheLineState, modified, exclusive, shared, invalid, CacheLine, is_valid, is_owner, LruCache,
  new_line,
}
use Lines

-- Each number stands for the field of the node and for the metric of the same event.
pub record CacheNode (V : Type 0) : Type 0 where
  pub cache : LruCache V
  pub hits : ℕ
  pub misses : ℕ
  pub evictions : ℕ
  pub invalidations : ℕ
  pub writes : ℕ

-- The answer to a CACHE_READ.
pub data ReadReply (V : Type 0) : Type 0 where
  found : (value : Option V) (state : CacheLineState) → ReadReply V
  not_found : ReadReply V

module _ {V : Type 0} where
  abbrev pub new_node : (cache_max_size : ℕ) → CacheNode V
  new_node cache_max_size = record {
    cache = record { max_size = cache_max_size; lines = [] };
    hits = 0;
    misses = 0;
    evictions = 0;
    invalidations = 0;
    writes = 0;
  }

  -- `line.state = …`, and other changes to a line that is in the cache
  abbrev pub store : String → CacheLine V → CacheNode V → CacheNode V
  store key line n = record n { cache = record n.cache { lines = insert key line n.cache.lines } }

  -- `cache.put`, with `_on_eviction` for each evicted line
  unfoldable pub put_line : String → CacheLine V → CacheNode V → CacheNode V
  put_line key line n =
      let (cache', out) = Lines.put key line n.cache in
      record n { cache = cache'; evictions = n.evictions + length out }

  unfoldable pub process_invalidate : String → CacheNode V → CacheNode V × Bool
  process_invalidate key n =
      let (cache', line) = Lines.invalidate key n.cache in
      (
        record n { cache = cache'; invalidations = n.invalidations + 1 },
        elim line [ none ↦ false | some l ↦ is_valid l.state ],
      )

  abbrev pub answer_read : String → CacheLine V → CacheNode V → CacheNode V × ReadReply V
  answer_read key line n =
      if is_valid line.state
      then (if is_owner line.state
          then (store key (record line { state = shared }) n, found line.value shared)
          else (n, found line.value line.state))
      else (n, not_found)

  unfoldable pub process_remote_read :
      (now : ℕ) (key : String) → CacheNode V → CacheNode V × ReadReply V
  process_remote_read now key n =
      let (cache', line) = Lines.get now key n.cache in
      let n' = record n { cache = cache' } in
      elim line [ none ↦ (n', not_found) | some l ↦ answer_read key l n' ]

  unfoldable pub process_update :
      (now : ℕ) (key : String) (value : Option V) → CacheNode V → CacheNode V
  process_update now key value n =
      let (cache', line) = Lines.get now key n.cache in
      let n' = record n { cache = cache' } in
      elim line [ none ↦ n' | some l ↦ store key (record l { value = value; state = shared }) n' ]

  abbrev pub hit_value : Option (CacheLine V) → Option (Option V)
  hit_value none = none
  hit_value (some l) = if is_valid l.state then some l.value else none

  -- `cache_read` up to its broadcast: a hit with its value, or a miss.
  unfoldable pub begin_read :
      (now : ℕ) (key : String) → CacheNode V → CacheNode V × Option (Option V)
  begin_read now key n =
      let (cache', line) = Lines.get now key n.cache in
      elim (hit_value line) [
        | none ↦ (record n { cache = cache'; misses = n.misses + 1 }, none)
        | some v ↦ (record n { cache = cache'; hits = n.hits + 1 }, some v)
      ]

  -- The value of the last reply that found the key. A send that failed is `none`.
  unfoldable pub found_value : Option V → List (Option (ReadReply V)) → Option V
  found_value v [] = v
  found_value v (some (found v' state) ∷ rs) = found_value v' rs
  found_value v (_ ∷ rs) = found_value v rs

  -- `cache_read` after its broadcast.
  unfoldable pub finish_read :
      (now : ℕ) (key : String) → List (Option (ReadReply V)) → CacheNode V → CacheNode V × Option V
  finish_read now key replies n = elim (found_value none replies) [
    | none ↦ (n, none)
    | some v ↦ (put_line key (new_line now key (some v) shared) n, some v)
  ]

  abbrev pub written_line :
      (now : ℕ) (key : String) (value : Option V) → Option (CacheLine V) → CacheLine V
  written_line now key value none = new_line now key value modified
  written_line now key value (some l) = record l { value = value; state = modified }

  -- `cache_write` after its broadcast.
  unfoldable pub finish_write :
      (now : ℕ) (key : String) (value : Option V) → CacheNode V → CacheNode V
  finish_write now key value n =
      let (cache', line) = Lines.get now key n.cache in
      let n' = put_line key (written_line now key value line) (record n { cache = cache' }) in
      record n' { writes = n'.writes + 1 }

  -- `_handle_invalidate` after its broadcast.
  unfoldable pub handle_invalidate : String → CacheNode V → CacheNode V
  handle_invalidate key n = record n { cache = (Lines.invalidate key n.cache).0 }
