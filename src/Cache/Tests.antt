-- ===== src/Cache/Tests.antt =====
-- nodes/cache_node.py: three small caches, and the theorems at them.
use tugas3_sinkronisasi_dist.Common.{
  ℕ, String, true, false, none, get_elem?, length, some, List, [], ◌∷◌, ◌++◌, ◌≡◌, refl, arith,
  string_eq, nat_eq, lookup, insert, pop, ◌==◌, ◌⊎◌, member,
}
use tugas3_sinkronisasi_dist.Cache.Lines.{
  shared, modified, move_to_end, evict, get, set_last, put, invalidate, CacheLine, new_line,
}
use tugas3_sinkronisasi_dist.Cache.{
  CacheNode, put_line, process_invalidate, process_remote_read, begin_read, found_value,
  finish_read, finish_write, handle_invalidate, new_node,
}
use tugas3_sinkronisasi_dist.Cache.Lru.{IsValid, put_keeps}
use tugas3_sinkronisasi_dist.Cache.Coherence.{holders, owners, IsCoherent}
use tugas3_sinkronisasi_dist.Cache.Copies.{Copy, copy}
use tugas3_sinkronisasi_dist.Cache.Network.{
  Network, NetworkEvent, asks, serves, fills, clears, saves, forgets, at_node, all_told,
  new_network, received, keep_mail, network_step, run_network, last_saved, no_mail, is_orderly,
}
use tugas3_sinkronisasi_dist.Cache.Orderly.{
  run_network-IsCoherent, reads_are_current, read_finds_copy,
}

program : Unit {0}
unfolding lookup insert pop move_to_end evict get set_last put invalidate put_line
    process_invalidate process_remote_read begin_read found_value finish_read finish_write
    handle_invalidate holders owners at_node all_told received keep_mail network_step run_network
    last_saved no_mail is_orderly member
program = tt

-- Node 0 writes `x`. Nodes 1 and 2 read it at once: the reply of node 2 to node 1 is lost, and node 0
-- forgets `y` in between. Then node 2 writes `x` again.
abbrev events : List (NetworkEvent ℕ)
events =
    clears 1 "x"
    ∷ clears 2 "x"
    ∷ saves 1 0 "x" (some 5)
    ∷ asks 2 1 "x"
    ∷ asks 2 2 "x"
    ∷ serves 3 0 0 "x"
    ∷ serves 3 2 0 "x"
    ∷ forgets 0 "y"
    ∷ serves 3 0 1 "x"
    ∷ fills 4 1 0 "x" (0 ∷ [])
    ∷ fills 5 2 1 "x" (0 ∷ [])
    ∷ clears 1 "x"
    ∷ clears 0 "x"
    ∷ saves 6 2 "x" (some 7)
    ∷ []

abbrev sizes : List ℕ
sizes = 2 ∷ 2 ∷ 1 ∷ []

abbrev start : Network ℕ
start = new_network sizes

abbrev after : Network ℕ
after = run_network events start

events-values :
    (is_orderly "x" [] events start ≡ true)
    × (last_saved "x" events none ≡ some 7)
    × (holders "x" after.nodes ≡ 1)
    × (owners "x" after.nodes ≡ 1)
unfolding program
events-values = (refl, refl, refl, refl)

-- A reply from before a write that arrives after it leaves an old copy: such a run is not orderly.
abbrev late_events : List (NetworkEvent ℕ)
late_events =
    saves 1 0 "x" (some 5)
    ∷ asks 2 1 "x"
    ∷ serves 3 0 0 "x"
    ∷ clears 1 "x"
    ∷ clears 2 "x"
    ∷ saves 4 0 "x" (some 7)
    ∷ fills 5 1 0 "x" (0 ∷ [])
    ∷ []

late-values :
    (is_orderly "x" [] late_events start ≡ false)
    × (last_saved "x" late_events none ≡ some 7)
    × (holders "x" (run_network late_events start).nodes ≡ 2)
    × (owners "x" (run_network late_events start).nodes ≡ 1)
unfolding program
late-values = (refl, refl, refl, refl)

run_network-IsCoherent_example : IsCoherent "x" (last_saved "x" events none) after.nodes
run_network-IsCoherent_example = run_network-IsCoherent events "x" sizes events-values.0

abbrev node_at : (p : ℕ) → CacheNode ℕ
node_at p = elim (get_elem? after.nodes p) [ none ↦ new_node 0 | some n ↦ n ]

node_at-lem :
    (get_elem? after.nodes 1 ≡ some (node_at 1)) × (get_elem? after.nodes 2 ≡ some (node_at 2))
unfolding program
node_at-lem = (refl, refl)

reads_are_current_example :
    (((begin_read 7 "x" (node_at 1)).1 ≡ none)
      ⊎ ((begin_read 7 "x" (node_at 1)).1 ≡ some (last_saved "x" events none)))
    × (((finish_read 7 "x" (received 3 "x" after.mail (0 ∷ [])) (node_at 1)).1 ≡ none)
        ⊎ ((finish_read 7 "x" (received 3 "x" after.mail (0 ∷ [])) (node_at 1)).1
            ≡ last_saved "x" events none))
reads_are_current_example =
    reads_are_current events sizes 7 1 3 "x" (0 ∷ []) (node_at 1) events-values.0 node_at-lem.0

abbrev copied : Copy ℕ
copied = record { value = some 7; owned = true }

copied-lem : (copy "x" (node_at 2) ≡ some copied) × (member (length after.mail) (0 ∷ []) ≡ true)
unfolding program
copied-lem = (refl, refl)

read_finds_copy_example :
    (finish_read 9 "x"
      (received 2 "x" (network_step (serves 8 2 2 "x") after).mail (0 ∷ []))
      (node_at 1)).1
    ≡ last_saved "x" events none
read_finds_copy_example =
    read_finds_copy events sizes 8 9 2 2 "x" (0 ∷ []) (node_at 1) (node_at 2) copied events-values.0
      node_at-lem.1 copied-lem.0 copied-lem.1

abbrev small : CacheNode ℕ
small = new_node 1

new-IsValid : (size : ℕ) → IsValid {V = ℕ} (new_node size).cache
new-IsValid size = record { unique = tt; bounded = omega arith }

abbrev holder : CacheNode ℕ
holder = record small {
  cache = record { max_size = 1; lines = ("x", new_line 1 "x" (some 5) modified) ∷ [] };
}

abbrev put_one : CacheLine ℕ
put_one = new_line 2 "y" (some 6) shared

put_keeps_example :
    IsValid (put "y" put_one holder.cache).0
    × (lookup "y" (put "y" put_one holder.cache).0.lines ≡ some put_one)
    × ((put "y" put_one holder.cache).1 ++ (put "y" put_one holder.cache).0.lines
        ≡ pop "y" holder.cache.lines ++ ("y", put_one) ∷ [])
    × ((j : String)
        → ("y" == j) ≡ false
        → (lookup j (put "y" put_one holder.cache).0.lines ≡ lookup j holder.cache.lines)
          ⊎ (lookup j (put "y" put_one holder.cache).0.lines ≡ none))
put_keeps_example =
    put_keeps "y" put_one holder.cache
      (record { unique = unfold program in (refl, tt); bounded = omega arith }) (omega arith)
