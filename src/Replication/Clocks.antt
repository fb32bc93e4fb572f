-- ===== src/Replication/Clocks.antt =====
-- geo/replicator.py: `VectorClock`, the count of each node's events, 0 for a node without one.
use tugas3_sinkronisasi_dist.Common.{
  ℕ, ◌+◌, max, String, Bool, true, false, not, ◌&&◌, List, [], ◌∷◌, ◌++◌, ltb, if◌then◌else◌,
  or_else, string_eq, Dict, keys, lookup, insert,
}

abbrev pub VectorClock : Type 0
VectorClock = Dict String ℕ

-- `_clock.get(node_id, 0)`
abbrev pub count : String → VectorClock → ℕ
count node_id c = or_else (lookup node_id c) 0

unfoldable pub increment : String → VectorClock → VectorClock
increment node_id c = insert node_id (count node_id c + 1) c

unfoldable pub merge : VectorClock → VectorClock → VectorClock
merge c [] = c
merge c ((node_id, ts) ∷ other) = merge (insert node_id (max (count node_id c) ts) c) other

-- `self_gte` and `other_gte` after the loop of `is_concurrent` over these keys
unfoldable pub compare_keys : List String → VectorClock → VectorClock → Bool → Bool → Bool × Bool
compare_keys [] c other self_gte other_gte = (self_gte, other_gte)
compare_keys (k ∷ ks) c other self_gte other_gte =
    compare_keys ks c other (if ltb (count k c) (count k other) then false else self_gte)
      (if ltb (count k other) (count k c) then false else other_gte)

-- The set of the keys of both. One that both have stands here twice: looking at it again changes
-- neither loop.
abbrev pub all_keys : VectorClock → VectorClock → List String
all_keys c other = keys c ++ keys other

unfoldable pub is_concurrent : VectorClock → VectorClock → Bool
is_concurrent c other =
    let (self_gte, other_gte) = compare_keys (all_keys c other) c other true true in
    not self_gte && not other_gte

-- The loop of `dominates` over these keys.
unfoldable pub dominates_keys : List String → VectorClock → VectorClock → Bool → Bool
dominates_keys [] c other dominated = dominated
dominates_keys (k ∷ ks) c other dominated =
    let rest =
      dominates_keys ks c other (if ltb (count k other) (count k c) then true else dominated) in
    if ltb (count k c) (count k other) then false else rest

unfoldable pub dominates : VectorClock → VectorClock → Bool
dominates c other = dominates_keys (all_keys c other) c other false
