-- ===== src/Queue/Turns.antt =====
-- nodes/queue_node.py: the second loop of `get_nodes_for_key`, turn by turn.
use tugas3_sinkronisasi_dist.Common.{
  ℕ, zero, suc, ◌+◌, ◌≤◌, ◌<◌, ◌%◌, max, String, true, false, Option, some, List, [], ◌∷◌, ◌++◌,
  leb, string_eq, nat_eq, ◌==◌, Dict, lookup, member, add, ◌>>=◌, length, get_elem?, member-append,
  member-snoc, member-add, add-ne-nil, append_assoc, append-nil, ◌≡◌, refl, sym, ap, ◌∙◌, ◌⊎◌, inl,
  inr, arith, Bool-cases, beq_eq, beq_refl, subst, length-append,
}
use native.Mathlib.Nat.{mod-lt}
use tugas3_sinkronisasi_dist.Queue.Ring.{collect}

-- No name twice.
abbrev pub Distinct : List String → Type 0
Distinct [] = Unit
Distinct (x ∷ xs) = (member x xs ≡ false) × Distinct xs

Distinct-snoc :
    (x : String) (xs : List String) → member x xs ≡ false → Distinct xs → Distinct (xs ++ x ∷ [])
unfolding member
Distinct-snoc x [] fresh d = (refl, tt)
Distinct-snoc x (y ∷ xs) fresh d = elim (Bool-cases (y == x)) [
  | inl same ↦ absurd (ground (arith, same, fresh))
  | inr other ↦ (
    ground (arith, member-snoc y x xs, d.0, other, string_eq.same_iff x y, string_eq.same_iff y x),
    Distinct-snoc x xs (ground (arith, other, fresh)) d.1,
  )
]

Distinct-add : (x : String) (xs : List String) → Distinct xs → Distinct (add x xs)
unfolding add
Distinct-add x xs d = elim (Bool-cases (member x xs)) [
  | inl old ↦ rw old d
  | inr new ↦ rw new (Distinct-snoc x xs new d)
]

-- `add` at most appends its element.
add_lem :
    (x : String) (xs : List String)
    → (more : List String) × (add x xs ≡ xs ++ more) × (length (add x xs) ≤ length xs + 1)
unfolding add
add_lem x xs = elim (Bool-cases (member x xs)) [
  | inl old ↦ ([], rw old (sym (append-nil xs)), rw old (omega arith))
  | inr new ↦ (x ∷ [], rw new refl, rw new (let e = length-append xs (x ∷ []) in omega arith))
]

-- The owner of the point at an index of the sorted keys.
abbrev pub owner_at : List ℕ → Dict ℕ String → ℕ → Option String
owner_at ks d j = get_elem? ks j >>= λ k. lookup k d

module _ (idx count : ℕ) (ks : List ℕ) (d : Dict ℕ String) where
  abbrev pub Owned : ℕ → Type 0
  Owned j = (k : ℕ) × (x : String) × (get_elem? ks j ≡ some k) × (lookup k d ≡ some x)

  -- What the loop gives from the turn `i` on, with the names `seen` so far.
  pub record Collected (i : ℕ) (seen ns : List String) : Type 0 where
    pub distinct : Distinct ns
    pub bound : length ns ≤ max 1 count
    pub starts : (more : List String) × (ns ≡ seen ++ more)
    pub owners :
        (x : String)
        → member x ns ≡ true
        → (member x seen ≡ true) ⊎ ((j : ℕ) × (owner_at ks d j ≡ some x))
    pub first : seen ≡ [] → i < length ks → get_elem? ns 0 ≡ owner_at ks d ((idx + i) % length ks)
    pub complete :
        length ns < count
        → (j : ℕ) (x : String) → i ≤ j
        → j < length ks
        → owner_at ks d ((idx + j) % length ks) ≡ some x
        → member x ns ≡ true

  -- One turn, that sees the owner `x`, before the others.
  turn :
      (i : ℕ) (seen ns : List String) (x : String)
      → owner_at ks d ((idx + i) % length ks) ≡ some x
      → Collected (i + 1) (add x seen) ns
      → Collected i seen ns
  turn i seen ns x at c =
      let (more, e, short) = add_lem x seen in
      let (others, e') = c.starts in
      let here : member x ns ≡ true =
        ap (member x) e'
        ∙ member-append x (add x seen) others
        ∙ ground (arith, member-add x x seen, beq_refl x) in
      record {
        distinct = c.distinct;
        bound = c.bound;
        starts = (more ++ others, e' ∙ ap (λ l. l ++ others) e ∙ append_assoc seen more others);
        owners = λ y m. elim (c.owners y m) [
          | inl there ↦ elim (Bool-cases (x == y)) [
            | inl same ↦
                let e'' : x ≡ y = beq_eq x y same in inr ((idx + i) % length ks, at ∙ ap some e'')
            | inr other ↦ inl (ground (arith, there, other, member-add x y seen))
          ]
          | inr found ↦ inr found
        ];
        first = λ none_seen lt.
            ap (λ l. get_elem? l 0) (e' ∙ ap (λ l. add x l ++ others) none_seen)
            ∙ unfold add member in sym at;
        complete = λ few j y le lt at'. elim (Bool-cases (leb j i)) [
          | inl now ↦
              let same : i ≡ j = ground (arith, now) in
              let e'' : some x ≡ some y =
                sym at ∙ ap (λ j. owner_at ks d ((idx + j) % length ks)) same ∙ at' in
              let e3 : x ≡ y = cc in subst (λ y. member y ns ≡ true) e3 here
          | inr later ↦ c.complete few j y (ground (arith, later)) lt at'
        ];
      }

  abbrev after_turn : (i n : ℕ) (names : List String) → Option (List String)
  after_turn i n names = elim (leb count (length names)) [
    | true ↦ some names
    | false ↦ collect idx count ks d (i + 1) n names names
  ]

  collect-after_turn :
      (i n : ℕ) (seen : List String) (k : ℕ) (x : String)
      → get_elem? ks ((idx + i) % length ks) ≡ some k
      → lookup k d ≡ some x
      → collect idx count ks d i (suc n) seen seen ≡ after_turn i n (add x seen)
  unfolding collect add
  collect-after_turn i n seen k x got found = rw (got, found) refl

  -- The loop returns, if every point has an owner.
  pub collect_lem :
      (i n : ℕ) (seen : List String)
      → i + n ≡ length ks
      → ((j : ℕ) → j < length ks → Owned j)
      → Distinct seen
      → length seen < max 1 count
      → (ns : List String) × (collect idx count ks d i n seen seen ≡ some ns) × Collected i seen ns
  unfolding collect
  collect_lem i zero seen end owned distinct room = (
    seen,
    refl,
    record {
      distinct = distinct;
      bound = omega arith;
      starts = ([], sym (append-nil seen));
      owners = λ x m. inl m;
      first = λ e lt. absurd (omega arith);
      complete = λ few j x le lt at. absurd (omega arith);
    },
  )
  collect_lem i (suc n) seen end owned distinct room =
      let (k, x, got, found) = owned ((idx + i) % length ks) (mod-lt (idx + i) (omega arith)) in
      let at : owner_at ks d ((idx + i) % length ks) ≡ some x = rw got found in
      let (more, e, short) = add_lem x seen in
      elim (Bool-cases (leb count (length (add x seen)))) [
        | inl full ↦ (
          add x seen,
          collect-after_turn i n seen k x got found ∙ rw (full, after_turn) refl,
          turn i seen (add x seen) x at (record {
            distinct = Distinct-add x seen distinct;
            bound = omega arith;
            starts = ([], sym (append-nil (add x seen)));
            owners = λ x m. inl m;
            first = λ e lt. absurd (add-ne-nil x seen e);
            complete = λ few j x le lt at. absurd (ground (arith, full, few));
          }),
        )
        | inr goes_on ↦
            let (ns, e', c) =
              collect_lem (i + 1) n (add x seen) (omega arith) owned (Distinct-add x seen distinct)
                (ground (arith, goes_on)) in
            (
              ns,
              collect-after_turn i n seen k x got found ∙ rw (goes_on, after_turn) e',
              turn i seen ns x at c,
            )
      ]
