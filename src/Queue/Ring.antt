-- ===== src/Queue/Ring.antt =====
-- nodes/queue_node.py: `ConsistentHashRing`. The md5 hash is a parameter: `hash key` for a key, and
-- `point node_id i` for the text f"{node_id}:{i}" of a virtual node.
use tugas3_sinkronisasi_dist.Common.{
  ℕ, zero, suc, ◌+◌, String, Option, none, some, List, [], ◌∷◌, leb, if◌then◌else◌, string_eq,
  nat_eq, Dict, keys, lookup, insert, pop, add, discard, sorted, length, get_elem?, ◌%◌, ◌>>=◌,
  member, ◌++◌, true, false, or_else,
}

pub record HashRing : Type 0 where
  pub replicas : ℕ
  pub ring : Dict ℕ String
  pub sorted_keys : List ℕ
  pub nodes : List String

abbrev pub new_ring : (replicas : ℕ) → HashRing
new_ring replicas = record { replicas = replicas; ring = []; sorted_keys = []; nodes = [] }

-- The first `k` of the sorted keys with `k >= h`.
unfoldable pub first_from : ℕ → List ℕ → Option ℕ
first_from h [] = none
first_from h (k ∷ ks) = let rest = first_from h ks in if leb h k then some k else rest

module _ (point : String → ℕ → ℕ) where
  -- The loops over `range(replicas)` from `i` on.
  unfoldable pub put_points : (node_id : String) (i : ℕ) → ℕ → Dict ℕ String → Dict ℕ String
  put_points node_id i zero d = d
  put_points node_id i (suc n) d = put_points node_id (i + 1) n (insert (point node_id i) node_id d)

  unfoldable pub pop_points : (node_id : String) (i : ℕ) → ℕ → Dict ℕ String → Dict ℕ String
  pop_points node_id i zero d = d
  pop_points node_id i (suc n) d = pop_points node_id (i + 1) n (pop (point node_id i) d)

  unfoldable pub add_node : String → HashRing → HashRing
  add_node node_id r =
      let ring' = put_points node_id 0 r.replicas r.ring in
      record r { nodes = add node_id r.nodes; ring = ring'; sorted_keys = sorted (keys ring') }

  unfoldable pub remove_node : String → HashRing → HashRing
  remove_node node_id r =
      let ring' = pop_points node_id 0 r.replicas r.ring in
      record r { nodes = discard node_id r.nodes; ring = ring'; sorted_keys = sorted (keys ring') }

-- `self._sorted_keys[0]`, and the key that the loop finds before it
abbrev pub chosen_key : ℕ → List ℕ → Option ℕ
chosen_key h [] = none
chosen_key h (k ∷ ks) = elim (first_from h (k ∷ ks)) [ some j ↦ some j | none ↦ some k ]

module _ (hash : String → ℕ) where
  -- `none` for an empty ring. A KeyError or an IndexError, which `Placement.get_node_lem` rules out,
  -- would be `none` too.
  unfoldable pub get_node : String → HashRing → Option String
  get_node key r = elim r.ring [
    | [] ↦ none
    | e ∷ d ↦ elim (chosen_key (hash key) r.sorted_keys) [ none ↦ none | some k ↦ lookup k r.ring ]
  ]

-- The index at which the `enumerate` loop of `get_nodes_for_key` stops, from `i` on.
unfoldable pub first_index : (h i : ℕ) → List ℕ → Option ℕ
first_index h i [] = none
first_index h i (k ∷ ks) = let rest = first_index h (i + 1) ks in if leb h k then some i else rest

-- The second loop, from `i` on and `n` times at most. An IndexError or a KeyError would be `none`.
unfoldable pub collect :
    (idx count : ℕ) (sorted_keys : List ℕ) (ring : Dict ℕ String) (i n : ℕ)
    → (seen result : List String) → Option (List String)
collect idx count sorted_keys ring i zero seen result = some result
collect idx count sorted_keys ring i (suc n) seen result =
    get_elem? sorted_keys ((idx + i) % length sorted_keys) >>= λ k. lookup k ring >>= λ node.
    let result' = if member node seen then result else result ++ node ∷ [] in
    elim (leb count (length result')) [
      | true ↦ some result'
      | false ↦ collect idx count sorted_keys ring (i + 1) n (add node seen) result'
    ]

module _ (hash : String → ℕ) where
  unfoldable pub get_nodes_for_key : (key : String) (count : ℕ) → HashRing → Option (List String)
  get_nodes_for_key key count r = elim r.ring [
    | [] ↦ some []
    | e ∷ d ↦
        let idx = or_else (first_index (hash key) 0 r.sorted_keys) 0 in
        collect idx count r.sorted_keys r.ring 0 (length r.sorted_keys) [] []
  ]
