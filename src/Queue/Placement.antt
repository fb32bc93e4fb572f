-- ===== src/Queue/Placement.antt =====
-- nodes/queue_node.py: the ring gives a key to the owner of the next point clockwise, and a node that
-- comes or goes moves no other keys than its own.
use tugas3_sinkronisasi_dist.Common.{
  ℕ, ◌≤◌, ◌<◌, String, Bool, true, false, none, some, List, [], ◌∷◌, leb, if◌then◌else◌, is_some,
  string_eq, nat_eq, ◌==◌, Dict, keys, lookup, sorted, member, member-sorted, member-keys, IsSorted,
  sorted-IsSorted, All, ◌≡◌, refl, sym, ap, ◌∙◌, ◌⊎◌, inl, inr, arith, Bool-cases, beq_eq, beq_refl,
  subst,
}
use tugas3_sinkronisasi_dist.Queue.Ring.{HashRing, first_from, chosen_key, get_node}

-- Clockwise from `h` the point `p` comes no later than `q`.
abbrev pub nearer : ℕ → ℕ → ℕ → Bool
nearer h p q =
    if leb h p then (if leb h q then leb p q else true) else (if leb h q then false else leb p q)

All-member : (m b : ℕ) (xs : List ℕ) → All (λ y. m ≤ y) xs → member b xs ≡ true → m ≤ b
unfolding member
All-member m b [] h there = absurd cc
All-member m b (x ∷ xs) h there = elim (Bool-cases (x == b)) [
  | inl same ↦ let e : x ≡ b = beq_eq x b same in subst (λ y. m ≤ y) e h.0
  | inr other ↦ All-member m b xs h.1 (ground (arith, there, other))
]

first_from_lem :
    (h : ℕ) (ks : List ℕ)
    → IsSorted ks
    → ((first_from h ks ≡ none) × ((q : ℕ) → member q ks ≡ true → q < h))
      ⊎ ((p : ℕ) × (first_from h ks ≡ some p)
          × (member p ks ≡ true)
          × (h ≤ p)
          × ((q : ℕ) → member q ks ≡ true → h ≤ q → p ≤ q))
unfolding first_from member
first_from_lem h [] s = inl (refl, λ q m. absurd cc)
first_from_lem h (k ∷ ks) s = elim (Bool-cases (leb h k)) [
  | inl found ↦ inr (
    k,
    rw (found, first_from) refl,
    rw (beq_refl k) refl,
    ground arith,
    λ q m le. All-member k q (k ∷ ks) (omega arith, s.0) m,
  )
  | inr low ↦ elim (first_from_lem h ks s.1) [
    | inl (nothing, below) ↦ inl (
      rw (low, first_from) nothing,
      λ q m. elim (Bool-cases (k == q)) [
        | inl same ↦ let e : k ≡ q = beq_eq k q same in ground (arith, e, low)
        | inr other ↦ below q (ground (arith, m, other))
      ],
    )
    | inr (p, got, there, le, least) ↦ inr (
      p,
      rw (low, first_from) got,
      ground (arith, there),
      le,
      λ q m le'. elim (Bool-cases (k == q)) [
        | inl same ↦ let e : k ≡ q = beq_eq k q same in absurd (ground (arith, e, low, le'))
        | inr other ↦ least q (ground (arith, m, other)) le'
      ],
    )
  ]
]

-- The nearest of the points clockwise from `h`.
pub record IsNext (h p : ℕ) (d : Dict ℕ String) : Type 0 where
  pub there : is_some (lookup p d) ≡ true
  pub nearest : (q : ℕ) → is_some (lookup q d) ≡ true → nearer h p q ≡ true

chosen_key_lem :
    (h : ℕ) (k : ℕ) (ks : List ℕ)
    → IsSorted (k ∷ ks)
    → (p : ℕ) × (chosen_key h (k ∷ ks) ≡ some p)
      × (member p (k ∷ ks) ≡ true)
      × ((q : ℕ) → member q (k ∷ ks) ≡ true → nearer h p q ≡ true)
chosen_key_lem h k ks s = elim (first_from_lem h (k ∷ ks) s) [
  | inl (nothing, below) ↦ (
    k,
    rw (nothing, chosen_key) refl,
    unfold member in rw (beq_refl k) refl,
    λ q m.
        let le = All-member k q (k ∷ ks) (omega arith, s.0) m in
        let low = below q m in ground (arith, le, low),
  )
  | inr (p, got, there, le, least) ↦ (
    p,
    rw (got, chosen_key) refl,
    there,
    λ q m. elim (Bool-cases (leb h q)) [
      | inl high ↦ let le' = least q m (ground (arith, high)) in ground (arith, high, le, le')
      | inr low ↦ ground (arith, low, le)
    ],
  )
]

pub next_unique : (h p q : ℕ) (d : Dict ℕ String) → IsNext h p d → IsNext h q d → p ≡ q
next_unique h p q d n n' =
    let le = n.nearest q n'.there in let le' = n'.nearest p n.there in ground (arith, le, le')

-- The sorted keys are those of the ring.
abbrev pub IsIndexed : HashRing → Type 0
IsIndexed r = r.sorted_keys ≡ sorted (keys r.ring)

chosen-IsNext :
    (h : ℕ) (x : ℕ × String) (d : Dict ℕ String)
    → (p : ℕ) × (chosen_key h (sorted (keys (x ∷ d))) ≡ some p) × IsNext h p (x ∷ d)
chosen-IsNext h x d = go (sorted (keys (x ∷ d))) refl
  where
    go :
        (ks : List ℕ)
        → sorted (keys (x ∷ d)) ≡ ks
        → (p : ℕ) × (chosen_key h (sorted (keys (x ∷ d))) ≡ some p) × IsNext h p (x ∷ d)
    go [] e =
        let m : member x.0 (sorted (keys (x ∷ d))) ≡ true =
          member-sorted x.0 (keys (x ∷ d)) ∙ unfold member in rw (beq_refl x.0) refl in
        absurd (unfold member in ground (arith, m, e))
    go (k ∷ ks) e =
        let (p, got, there, near) =
          chosen_key_lem h k ks (subst IsSorted e (sorted-IsSorted (keys (x ∷ d)))) in
        let same : (q : ℕ) → member q (k ∷ ks) ≡ is_some (lookup q (x ∷ d)) =
          λ q. ap (member q) (sym e) ∙ member-sorted q (keys (x ∷ d)) ∙ member-keys q (x ∷ d) in
        (
          p,
          ap (chosen_key h) e ∙ got,
          record { there = sym (same p) ∙ there; nearest = λ q m. near q (same q ∙ m) },
        )

module _ (hash : String → ℕ) where
  -- A key goes to the owner of the nearest point, if the ring has one.
  pub get_node_lem :
      (key : String) (r : HashRing)
      → IsIndexed r
      → ((r.ring ≡ []) × (get_node hash key r ≡ none))
        ⊎ ((p : ℕ) × IsNext (hash key) p r.ring × (get_node hash key r ≡ lookup p r.ring))
  unfolding get_node
  get_node_lem key r indexed = go r.ring refl
    where
      go :
          (d : Dict ℕ String)
          → r.ring ≡ d
          → ((r.ring ≡ []) × (get_node hash key r ≡ none))
            ⊎ ((p : ℕ) × IsNext (hash key) p r.ring × (get_node hash key r ≡ lookup p r.ring))
      go [] e = inl (e, ground (arith, e))
      go (x ∷ d) e =
          let (p, got, next) = chosen-IsNext (hash key) x d in
          let got' : chosen_key (hash key) r.sorted_keys ≡ some p =
            ap (chosen_key (hash key)) (indexed ∙ ap (λ d. sorted (keys d)) e) ∙ got in
          inr (p, subst (IsNext (hash key) p) (sym e) next, ground (arith, e, got'))

  pub get_node_next :
      (key : String) (p : ℕ) (r : HashRing)
      → IsIndexed r
      → IsNext (hash key) p r.ring
      → get_node hash key r ≡ lookup p r.ring
  get_node_next key p r indexed next = elim (get_node_lem key r indexed) [
    | inl (empty, nobody) ↦
        let none_there : lookup p r.ring ≡ none = ap (lookup p) empty ∙ unfold lookup in refl in
        absurd (ground (arith, next.there, none_there))
    | inr (q, next', at) ↦
        let e : q ≡ p = next_unique (hash key) q p r.ring next' next in
        at ∙ ap (λ x. lookup x r.ring) e
  ]
