-- ===== src/Queue/Owners.antt =====
-- nodes/queue_node.py: the nodes that `get_nodes_for_key` gives for a key.
use tugas3_sinkronisasi_dist.Common.{
  ℕ, zero, suc, ◌+◌, ◌-◌, ◌≤◌, ◌<◌, ◌%◌, max, String, true, Option, none, some, List, [], ◌∷◌, leb,
  is_some, string_eq, nat_eq, ◌==◌, Dict, keys, lookup, sorted, member, or_else, ◌>>=◌, length,
  get_elem?, member-sorted, member-keys, ◌≡◌, refl, sym, ap, ◌∙◌, ◌⊎◌, inl, inr, arith, Bool-cases,
  beq_eq, beq_refl, get_elem?-is_some_of_lt,
}
use native.Mathlib.Nat.{mod-eq_of_lt, add-mod_right}
use tugas3_sinkronisasi_dist.Queue.Ring.{
  HashRing, first_from, chosen_key, get_node, first_index, get_nodes_for_key,
}
use tugas3_sinkronisasi_dist.Queue.Placement.{IsIndexed}
use tugas3_sinkronisasi_dist.Queue.Turns.{Distinct, owner_at, collect_lem}

-- From `idx` on every index comes up, once around.
comes_up : (l idx j : ℕ) → idx < l → j < l → (i : ℕ) × (i < l) × ((idx + i) % l ≡ j)
comes_up l idx j here there = elim (Bool-cases (leb idx j)) [
  | inl after ↦
      let e : idx + (j - idx) ≡ j = ground (arith, after) in
      (j - idx, omega arith, ap (λ x. x % l) e ∙ mod-eq_of_lt there)
  | inr before ↦
      let e : idx + (j + l - idx) ≡ j + l = omega arith in
      (
        j + l - idx,
        ground (arith, before),
        ap (λ x. x % l) e ∙ add-mod_right j l ∙ mod-eq_of_lt there,
      )
]

first_index_lem :
    (h i : ℕ) (ks : List ℕ)
    → ((first_index h i ks ≡ none) × (first_from h ks ≡ none))
      ⊎ ((j : ℕ) × (first_index h i ks ≡ some (i + j))
          × (j < length ks)
          × (first_from h ks ≡ get_elem? ks j))
unfolding first_index first_from
first_index_lem h i [] = inl (refl, refl)
first_index_lem h i (k ∷ ks) = elim (Bool-cases (leb h k)) [
  | inl found ↦ inr (0, rw found (ap some (omega arith)), omega arith, rw found refl)
  | inr low ↦ elim (first_index_lem h (i + 1) ks) [
    | inl (e, e') ↦ inl (rw (low, e) refl, rw (low, e') refl)
    | inr (j, e, lt, e') ↦
        inr (suc j, rw (low, e) (ap some (omega arith)), omega arith, rw (low, e') refl)
  ]
]

-- The index that the second loop starts from is that of the key's point.
start_lem :
    (h k : ℕ) (ks : List ℕ)
    → (or_else (first_index h 0 (k ∷ ks)) 0 < length (k ∷ ks))
      × (get_elem? (k ∷ ks) (or_else (first_index h 0 (k ∷ ks)) 0) ≡ chosen_key h (k ∷ ks))
start_lem h k ks = elim (first_index_lem h 0 (k ∷ ks)) [
  | inl (e, e') ↦ (rw e (omega arith), rw (e, e', chosen_key) refl)
  | inr (j, e, lt, e') ↦
      let (p, got) = get_elem?-is_some_of_lt (k ∷ ks) j lt in
      let at : first_index h 0 (k ∷ ks) ≡ some j = e ∙ ap some (omega arith) in
      let chosen : chosen_key h (k ∷ ks) ≡ some p = rw (e' ∙ got, chosen_key) refl in
      (rw at lt, rw at (got ∙ sym chosen))
]

get_elem?-member : (ks : List ℕ) (j p : ℕ) → get_elem? ks j ≡ some p → member p ks ≡ true
unfolding member
get_elem?-member [] j p h = absurd cc
get_elem?-member (k ∷ ks) zero p h = ground (arith, h)
get_elem?-member (k ∷ ks) (suc j) p h = ground (arith, get_elem?-member ks j p h)

member-get_elem? :
    (ks : List ℕ) (p : ℕ)
    → member p ks ≡ true
    → (j : ℕ) × (j < length ks) × (get_elem? ks j ≡ some p)
unfolding member
member-get_elem? [] p h = absurd cc
member-get_elem? (k ∷ ks) p h = elim (Bool-cases (k == p)) [
  | inl same ↦ (0, omega arith, ap some (beq_eq k p same))
  | inr other ↦
      let (j, lt, e) = member-get_elem? ks p (ground (arith, h, other)) in (suc j, omega arith, e)
]

-- A node that has a point on the ring.
abbrev pub IsOwner : String → HashRing → Type 0
IsOwner x r = (p : ℕ) × (lookup p r.ring ≡ some x)

owned_lem :
    (d : Dict ℕ String) (j : ℕ)
    → j < length (sorted (keys d))
    → (k : ℕ) × (x : String) × (get_elem? (sorted (keys d)) j ≡ some k) × (lookup k d ≡ some x)
owned_lem d j lt =
    let (k, got) = get_elem?-is_some_of_lt (sorted (keys d)) j lt in
    let there : is_some (lookup k d) ≡ true = sym (
      sym (get_elem?-member (sorted (keys d)) j k got)
      ∙ member-sorted k (keys d)
      ∙ member-keys k d) in
    go k got (lookup k d) refl there
  where
    go :
        (k : ℕ)
        → get_elem? (sorted (keys d)) j ≡ some k
        → (o : Option String) → lookup k d ≡ o
        → is_some (lookup k d) ≡ true
        → (k : ℕ) × (x : String) × (get_elem? (sorted (keys d)) j ≡ some k) × (lookup k d ≡ some x)
    go k got none e there = absurd (ground (arith, e, there))
    go k got (some x) e there = (k, x, got, e)

-- The index of an owner's point among the sorted keys.
owner_index :
    (d : Dict ℕ String) (p : ℕ) (x : String)
    → lookup p d ≡ some x
    → (j : ℕ) × (j < length (sorted (keys d))) × (owner_at (sorted (keys d)) d j ≡ some x)
owner_index d p x at =
    let m : member p (sorted (keys d)) ≡ true =
      member-sorted p (keys d) ∙ member-keys p d ∙ ap is_some at in
    let (j, lt, e) = member-get_elem? (sorted (keys d)) p m in (j, lt, rw e at)

point_of :
    (o : Option ℕ) (d : Dict ℕ String) (x : String)
    → o >>= (λ k. lookup k d) ≡ some x
    → (p : ℕ) × (lookup p d ≡ some x)
point_of none d x h = absurd cc
point_of (some k) d x h = (k, h)

-- The same of the points of a ring that is not empty.
start_of :
    (h : ℕ) (e : ℕ × String) (d : Dict ℕ String)
    → let ks = sorted (keys (e ∷ d)) in
      let idx = or_else (first_index h 0 ks) 0 in
      (idx < length ks) × (get_elem? ks idx ≡ chosen_key h ks)
start_of h e d = go (sorted (keys (e ∷ d))) refl
  where
    go :
        (ks : List ℕ)
        → sorted (keys (e ∷ d)) ≡ ks
        → (or_else (first_index h 0 (sorted (keys (e ∷ d)))) 0 < length (sorted (keys (e ∷ d))))
          × (get_elem? (sorted (keys (e ∷ d))) (or_else (first_index h 0 (sorted (keys (e ∷ d)))) 0)
              ≡ chosen_key h (sorted (keys (e ∷ d))))
    go [] empty =
        let m : member e.0 (sorted (keys (e ∷ d))) ≡ true =
          member-sorted e.0 (keys (e ∷ d)) ∙ unfold member in rw (beq_refl e.0) refl in
        absurd (unfold member in ground (arith, m, empty))
    go (k ∷ ks) same = rw same (start_lem h k ks)

module _ (hash : String → ℕ) where
  -- No name twice, at most `count` of them, or one, from the node of the key on, each with a point on
  -- the ring; every node that has one, unless there are `count` of them.
  pub record AreNodesFor (key : String) (count : ℕ) (r : HashRing) (ns : List String) : Type 0 where
    pub distinct : Distinct ns
    pub bound : length ns ≤ max 1 count
    pub first : get_elem? ns 0 ≡ get_node hash key r
    pub owners : (x : String) → member x ns ≡ true → IsOwner x r
    pub complete : (count ≤ length ns) ⊎ ((x : String) → IsOwner x r → member x ns ≡ true)

  -- On a ring whose sorted keys are those of the ring, get_nodes_for_key returns different nodes with
  -- points on the ring, at most `count` of them but one also where `count` is 0, and the first is
  -- what get_node returns. They are all the nodes with points, unless there are `count` of them.
  pub get_nodes_for_key_lem :
      (key : String) (count : ℕ) (r : HashRing)
      → IsIndexed r
      → (ns : List String) × (get_nodes_for_key hash key count r ≡ some ns)
        × AreNodesFor key count r ns
  unfolding get_nodes_for_key get_node
  get_nodes_for_key_lem key count r indexed = go r.ring refl
    where
      go :
          (d : Dict ℕ String)
          → r.ring ≡ d
          → (ns : List String) × (get_nodes_for_key hash key count r ≡ some ns)
            × AreNodesFor key count r ns
      go [] e = (
        [],
        rw e refl,
        record {
          distinct = tt;
          bound = omega arith;
          first = rw e refl;
          owners = λ x m. absurd (unfold member in cc);
          complete =
              inr (λ x o. absurd (let e' = sym o.1 ∙ ap (lookup o.0) e in unfold lookup in cc));
        },
      )
      go (e ∷ d) at =
          let ks = sorted (keys (e ∷ d)) in
          let idx = or_else (first_index (hash key) 0 ks) 0 in
          let ix : r.sorted_keys ≡ ks = indexed ∙ ap (λ d. sorted (keys d)) at in
          let (lt, start) = start_of (hash key) e d in
          let (ns, got, c) =
            collect_lem idx count ks (e ∷ d) 0 (length ks) [] (omega arith) (owned_lem (e ∷ d)) tt
              (omega arith) in
          let (k, x, here, at_k) = owned_lem (e ∷ d) idx lt in
          let around : (idx + 0) % length ks ≡ idx =
            ap (λ x. x % length ks) (omega arith) ∙ mod-eq_of_lt lt in
          let here' : owner_at ks (e ∷ d) idx ≡ some x = rw here at_k in
          let chosen : chosen_key (hash key) r.sorted_keys ≡ some k =
            ap (chosen_key (hash key)) ix ∙ sym start ∙ here in
          let given : get_node hash key r ≡ lookup k r.ring = ground (arith, at, chosen) in
          (
            ns,
            rw (at, ix) got,
            record {
              distinct = c.distinct;
              bound = c.bound;
              first =
                  c.first refl (omega arith)
                  ∙ ap (owner_at ks (e ∷ d)) around
                  ∙ here'
                  ∙ sym (given ∙ ap (lookup k) at ∙ at_k);
              owners = λ x m. elim (c.owners x m) [
                | inl none_seen ↦ absurd (unfold member in cc)
                | inr (j, owner) ↦
                    let (p, e') = point_of (get_elem? ks j) (e ∷ d) x owner in
                    (p, ap (lookup p) at ∙ e')
              ];
              complete = elim (Bool-cases (leb count (length ns))) [
                | inl enough ↦ inl (ground (arith, enough))
                | inr few ↦ inr (λ x o.
                    let (j, lt', owner) =
                      owner_index (e ∷ d) o.0 x (sym (ap (lookup o.0) at) ∙ o.1) in
                    let (i, lt'', same) = comes_up (length ks) idx j lt lt' in
                    c.complete (ground (arith, few)) i x (omega arith) lt''
                      (ap (owner_at ks (e ∷ d)) same ∙ owner))
              ];
            },
          )
