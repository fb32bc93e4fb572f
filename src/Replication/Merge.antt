-- ===== src/Replication/Merge.antt =====
-- geo/replicator.py: `merge` is the least clock that neither of the two is ahead of.
use tugas3_sinkronisasi_dist.Common.{
  ℕ, ◌+◌, max, String, [], ◌∷◌, if◌then◌else◌, string_eq, ◌==◌, lookup, insert, lookup-insert,
  IsUnique, IsUnique-insert, ◌≡◌, arith, beq_eq,
}
use tugas3_sinkronisasi_dist.Replication.Clocks.{VectorClock, count, increment, merge}
use tugas3_sinkronisasi_dist.Replication.Order.{Before}

count-insert :
    (k j : String) (n : ℕ) (c : VectorClock)
    → count j (insert k n c) ≡ (if k == j then n else count j c)
count-insert k j n c = ground (arith, lookup-insert k j n c)

pub count-increment :
    (k j : String) (c : VectorClock)
    → count j (increment k c) ≡ (if k == j then count j c + 1 else count j c)
unfolding increment
count-increment k j c = ground (arith, count-insert k j (count k c + 1) c, beq_eq k j)

pub count-merge :
    (k : String) (c other : VectorClock)
    → IsUnique other
    → count k (merge c other) ≡ max (count k c) (count k other)
unfolding merge lookup
count-merge k c [] u = ground arith
count-merge k c ((j, n) ∷ other) u = ground (
  arith,
  count-merge k (insert j (max (count j c) n) c) other u.1,
  count-insert j k (max (count j c) n) c,
  u.0,
  beq_eq j k,
)

pub IsUnique-merge : (c other : VectorClock) → IsUnique c → IsUnique (merge c other)
unfolding merge
IsUnique-merge c [] u = u
IsUnique-merge c ((j, n) ∷ other) u =
    IsUnique-merge (insert j (max (count j c) n) c) other
      (IsUnique-insert j (max (count j c) n) c u)

-- Neither clock is ahead of what `merge` makes of them, and every other clock of which that is true is
-- not behind it.
pub merge_is_least :
    (c other : VectorClock)
    → IsUnique other
    → Before c (merge c other)
      × Before other (merge c other)
      × ((bound : VectorClock) → Before c bound → Before other bound → Before (merge c other) bound)
unfolding Before
merge_is_least c other u = (
  λ k. omega (arith, count-merge k c other u),
  λ k. omega (arith, count-merge k c other u),
  λ bound low high k. omega (arith, count-merge k c other u, low k, high k),
)
