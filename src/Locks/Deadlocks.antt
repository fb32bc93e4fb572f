-- ===== src/Locks/Deadlocks.antt =====
-- nodes/lock_manager.py: `DeadlockDetector`, the wait-for graph and its cycle search.
use tugas3_sinkronisasi_dist.Common.{
  ℕ, zero, suc, ◌+◌, String, List, [], ◌∷◌, ◌++◌, if◌then◌else◌, or_else, ◌==◌, string_eq, Dict,
  keys, lookup, insert, pop, member, add, discard, length,
}

-- client → the clients that it waits for
abbrev pub WaitFor : Type 0
WaitFor = Dict String (List String)

unfoldable pub update : List String → List String → List String
update [] xs = xs
update (h ∷ hs) xs = update hs (add h xs)

unfoldable pub add_wait : String → List String → WaitFor → WaitFor
add_wait waiter holders w =
    insert waiter (update (discard waiter holders) (or_else (lookup waiter w) [])) w

unfoldable pub discard_all : String → WaitFor → WaitFor
discard_all client [] = []
discard_all client ((k, s) ∷ w) = (k, discard client s) ∷ discard_all client w

unfoldable pub remove_client : String → WaitFor → WaitFor
remove_client client w = discard_all client (pop client w)

pub record Search : Type 0 where
  pub visited : List String
  pub rec_stack : List String
  pub cycles : List (List String)

-- `path[path.index(x):]`
unfoldable pub from_first : String → List String → List String
from_first x [] = []
from_first x (y ∷ ys) = if y == x then y ∷ ys else from_first x ys

-- The `for neighbor` of `dfs`, with the recursive call as an argument.
unfoldable pub visit :
    (String → List String → Search → Search) → List String → List String → Search → Search
visit dfs path [] s = s
visit dfs path (n ∷ ns) s = visit dfs path ns (
    if member n s.visited
    then (if member n s.rec_stack
        then record s { cycles = s.cycles ++ from_first n path ∷ [] }
        else s)
    else dfs n path s)

-- `dfs(node, path)`: the path that a call appends to and pops from is its argument. One unit of
-- fuel for each level of the recursion.
unfoldable pub dfs : WaitFor → ℕ → String → List String → Search → Search
dfs w zero node path s = s
dfs w (suc fuel) node path s =
    let s' =
      visit (dfs w fuel) (path ++ node ∷ []) (or_else (lookup node w) [])
        (record s { visited = add node s.visited; rec_stack = add node s.rec_stack }) in
    record s' { rec_stack = discard node s'.rec_stack }

unfoldable pub search_from : WaitFor → ℕ → List String → Search → Search
search_from w fuel [] s = s
search_from w fuel (n ∷ ns) s =
    search_from w fuel ns (if member n s.visited then s else dfs w fuel n [] s)

-- A node is visited once, so the recursion is no deeper than there are nodes: the clients that wait
-- and those that are waited for.
unfoldable pub node_count : WaitFor → ℕ
node_count [] = 0
node_count ((k, s) ∷ w) = 1 + length s + node_count w

unfoldable pub detect_cycles : WaitFor → List (List String)
detect_cycles w =
    (search_from w (suc (node_count w)) (keys w)
      (record { visited = []; rec_stack = []; cycles = [] })).cycles
