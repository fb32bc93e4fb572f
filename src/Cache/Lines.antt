-- ===== src/Cache/Lines.antt =====
-- nodes/cache_node.py: `LruCache`, an OrderedDict of lines with the least recently used first.
use tugas3_sinkronisasi_dist.Common.{
  ℕ, ◌+◌, String, Bool, true, false, Option, none, some, [], ◌∷◌, ◌++◌, ltb, if◌then◌else◌,
  string_eq, length, Dict, lookup, insert, pop,
}

pub data CacheLineState : Type 0 where
  modified exclusive shared invalid : CacheLineState

pub record CacheLine (V : Type 0) : Type 0 where
  pub key : String
  pub value : Option V
  pub state : CacheLineState
  pub last_accessed : ℕ
  pub access_count : ℕ

abbrev pub is_valid : CacheLineState → Bool
is_valid invalid = false
is_valid _ = true

-- `state in (MODIFIED, EXCLUSIVE)`
abbrev pub is_owner : CacheLineState → Bool
is_owner modified = true
is_owner exclusive = true
is_owner _ = false

pub record LruCache (V : Type 0) : Type 0 where
  pub max_size : ℕ
  pub lines : Dict String (CacheLine V)

module _ {V : Type 0} where
  abbrev pub new_line : (now : ℕ) (key : String) (value : Option V) → CacheLineState → CacheLine V
  new_line now key value state = record {
    key = key;
    value = value;
    state = state;
    last_accessed = now;
    access_count = 0;
  }

  -- `_cache.move_to_end(key)`, for a key that is there
  unfoldable pub move_to_end :
      String → CacheLine V → Dict String (CacheLine V) → Dict String (CacheLine V)
  move_to_end key line d = pop key d ++ (key, line) ∷ []

  -- The `while` of `put`: what is left, and the evicted entries in order.
  unfoldable pub evict :
      ℕ → Dict String (CacheLine V) → Dict String (CacheLine V) × Dict String (CacheLine V)
  evict max_size [] = ([], [])
  evict max_size (e ∷ d) =
      let (kept, out) = evict max_size d in
      if ltb max_size (length (e ∷ d)) then (kept, e ∷ out) else (e ∷ d, [])

  abbrev pub touch : ℕ → CacheLine V → CacheLine V
  touch now line = record line { last_accessed = now; access_count = line.access_count + 1 }

  unfoldable pub get : (now : ℕ) (key : String) → LruCache V → LruCache V × Option (CacheLine V)
  unfolding move_to_end
  get now key c = elim (lookup key c.lines) [
    | none ↦ (c, none)
    | some line ↦
        let line' = touch now line in
        (record c { lines = move_to_end key line' c.lines }, some line')
  ]

  -- `put` without its eviction
  unfoldable pub set_last :
      String → CacheLine V → Dict String (CacheLine V) → Dict String (CacheLine V)
  unfolding move_to_end
  set_last key line d = elim (lookup key d) [
    | none ↦ insert key line d
    | some old ↦ insert key line (move_to_end key old d)
  ]

  -- The new cache, and the entries that the eviction callbacks are given, in order.
  unfoldable pub put :
      (key : String) → CacheLine V → LruCache V → LruCache V × Dict String (CacheLine V)
  put key line c =
      let (kept, out) = evict c.max_size (set_last key line c.lines) in
      (record c { lines = kept }, out)

  unfoldable pub invalidate : String → LruCache V → LruCache V × Option (CacheLine V)
  invalidate key c = elim (lookup key c.lines) [
    | none ↦ (c, none)
    | some line ↦
        let line' = record line { state = invalid } in
        (record c { lines = insert key line' c.lines }, some line')
  ]

  unfoldable pub remove : String → LruCache V → LruCache V
  remove key c = record c { lines = pop key c.lines }
