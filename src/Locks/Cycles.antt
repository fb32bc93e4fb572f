-- ===== src/Locks/Cycles.antt =====
-- nodes/lock_manager.py: the search of `detect_cycles` and the cycles of the wait-for graph that it
-- reports.
use tugas3_sinkronisasi_dist.Common.{
  ℕ, zero, suc, String, true, List, [], ◌∷◌, ◌++◌, ◌≡◌, refl, arith, or_else, string_eq, ◌==◌, keys,
  lookup, member, add, member-add, member-discard, member-snoc, subst, sym, Bool-cases, inl, inr,
  beq_refl, beq_eq, All, All-append,
}
use tugas3_sinkronisasi_dist.Locks.Deadlocks.{
  WaitFor, Search, from_first, visit, dfs, search_from, node_count, detect_cycles,
}
use tugas3_sinkronisasi_dist.Locks.Edges.{edge}

-- Each client of the list waits for the next.
abbrev pub IsChain : WaitFor → List String → Type 0
IsChain w [] = Unit
IsChain w (x ∷ []) = Unit
IsChain w (x ∷ y ∷ zs) = (edge x y w ≡ true) × IsChain w (y ∷ zs)

-- Each waits for the next, and the last for the first.
abbrev pub IsCycle : WaitFor → List String → Type 0
IsCycle w [] = ⊥
IsCycle w (x ∷ xs) = IsChain w ((x ∷ xs) ++ x ∷ [])

IsChain-snoc :
    (w : WaitFor) (path : List String) (x y : String)
    → IsChain w (path ++ x ∷ [])
    → edge x y w ≡ true
    → IsChain w ((path ++ x ∷ []) ++ y ∷ [])
IsChain-snoc w [] x y c e = (e, tt)
IsChain-snoc w (p ∷ []) x y c e = (c.0, (e, tt))
IsChain-snoc w (p ∷ q ∷ ps) x y c e = (c.0, IsChain-snoc w (q ∷ ps) x y c.1 e)

IsChain-tail : (w : WaitFor) (x : String) (xs : List String) → IsChain w (x ∷ xs) → IsChain w xs
IsChain-tail w x [] c = tt
IsChain-tail w x (y ∷ ys) c = c.1

-- From a client on the path to its end, and back to the client.
from_first-IsCycle :
    (w : WaitFor) (n : String) (path : List String)
    → member n path ≡ true
    → IsChain w (path ++ n ∷ [])
    → IsCycle w (from_first n path)
unfolding member from_first
from_first-IsCycle w n [] m c = cc
from_first-IsCycle w n (y ∷ ys) m c = elim (Bool-cases (y == n)) [
  | inl here ↦ rw here (subst (λ z. IsChain w ((y ∷ ys) ++ z ∷ [])) (sym (beq_eq y n here)) c)
  | inr later ↦
      rw later
        (from_first-IsCycle w n ys (ground (arith, later)) (IsChain-tail w y (ys ++ n ∷ []) c))
]

-- The cycles found so far are cycles, and the recursion stack lies on the path.
record IsSound (w : WaitFor) (path : List String) (s : Search) : Type 0 where
  found : All (IsCycle w) s.cycles
  stacked : (x : String) → member x s.rec_stack ≡ true → member x path ≡ true

module _ (w : WaitFor) (path : List String) (f : String → List String → Search → Search)
    (recurse : (n : String) (s : Search)
      → IsChain w (path ++ n ∷ [])
      → IsSound w path s
      → IsSound w path (f n path s)) where
  visit-IsSound :
      (ns : List String) (s : Search)
      → All (λ n. IsChain w (path ++ n ∷ [])) ns
      → IsSound w path s
      → IsSound w path (visit f path ns s)
  unfolding visit
  visit-IsSound [] s cs v = v
  visit-IsSound (n ∷ ns) s cs v = elim (Bool-cases (member n s.visited)) [
    | inr new ↦ rw new (visit-IsSound ns (f n path s) cs.1 (recurse n s cs.0 v))
    | inl old ↦ elim (Bool-cases (member n s.rec_stack)) [
      | inr done ↦ rw (old, done) (visit-IsSound ns s cs.1 v)
      | inl open_ ↦
          rw (old, open_)
            (visit-IsSound ns (record s { cycles = s.cycles ++ from_first n path ∷ [] }) cs.1
              (record {
                found =
                    All-append (IsCycle w) s.cycles (from_first n path ∷ []) v.found
                      (from_first-IsCycle w n path (v.stacked n open_) cs.0, tt);
                stacked = v.stacked;
              }))
    ]
  ]

neighbours-IsChain :
    (w : WaitFor) (path : List String) (x : String) (all ns : List String)
    → or_else (lookup x w) [] ≡ all
    → ((n : String) → member n ns ≡ true → member n all ≡ true)
    → IsChain w (path ++ x ∷ [])
    → All (λ n. IsChain w ((path ++ x ∷ []) ++ n ∷ [])) ns
unfolding member
neighbours-IsChain w path x all [] e sub c = tt
neighbours-IsChain w path x all (n ∷ ns) e sub c = (
  IsChain-snoc w path x n c (rw e (sub n (ground (arith, beq_refl n)))),
  neighbours-IsChain w path x all ns e (λ m h. sub m (ground (arith, h))) c,
)

dfs-IsSound :
    (w : WaitFor) (fuel : ℕ) (node : String) (path : List String) (s : Search)
    → IsChain w (path ++ node ∷ [])
    → IsSound w path s
    → IsSound w path (dfs w fuel node path s)
unfolding dfs
dfs-IsSound w zero node path s c v = v
dfs-IsSound w (suc fuel) node path s c v =
    let ns = or_else (lookup node w) [] in
    let s1 = record s { visited = add node s.visited; rec_stack = add node s.rec_stack } in
    let here = path ++ node ∷ [] in
    let v1 : IsSound w here s1 = record {
      found = v.found;
      stacked = λ x h.
          ground (arith, member-add node x s.rec_stack, member-snoc x node path, v.stacked x);
    } in
    let v2 =
      visit-IsSound w here (dfs w fuel) (λ n t. dfs-IsSound w fuel n here t) ns s1
        (neighbours-IsChain w path node ns ns refl (λ n h. h) c) v1 in
    record {
      found = v2.found;
      stacked = λ x h. ground (
        arith,
        member-discard node x (visit (dfs w fuel) here ns s1).rec_stack,
        member-snoc x node path,
        v2.stacked x,
      );
    }

search_from-IsSound :
    (w : WaitFor) (fuel : ℕ) (ns : List String) (s : Search)
    → IsSound w [] s
    → IsSound w [] (search_from w fuel ns s)
unfolding search_from
search_from-IsSound w fuel [] s v = v
search_from-IsSound w fuel (n ∷ ns) s v = elim (Bool-cases (member n s.visited)) [
  | inl old ↦ rw old (search_from-IsSound w fuel ns s v)
  | inr new ↦
      rw new (search_from-IsSound w fuel ns (dfs w fuel n [] s) (dfs-IsSound w fuel n [] s tt v))
]

-- In every list that `detect_cycles` reports, each client waits for the next, and the last for the
-- first.
pub detect_cycles-IsCycle : (w : WaitFor) → All (IsCycle w) (detect_cycles w)
unfolding detect_cycles
detect_cycles-IsCycle w =
    (search_from-IsSound w (suc (node_count w)) (keys w)
      (record { visited = []; rec_stack = []; cycles = [] })
      (record { found = tt; stacked = λ x h. unfold member in cc })).found
