-- ===== src/Cache/Lru.antt =====
-- nodes/cache_node.py: the LRU cache never holds more lines than its size or a key twice, evicts from
-- the least recently used end, and finds what was put.
use tugas3_sinkronisasi_dist.Common.{
  insert-absent, ℕ, zero, suc, ◌+◌, ◌-◌, ◌≤◌, String, false, none, some, [], ◌∷◌, ◌++◌, ◌≡◌, refl,
  arith, ltb, if◌then◌else◌, string_eq, ◌==◌, length, length-append, length-drop, take-append-drop,
  tests, drop, take, Dict, lookup, insert, pop, lookup-pop, Bool-cases, Option-cases, inl, inr, ◌⊎◌,
  ap, ◌∙◌, beq_refl, beq_eq, subst,
}
use tugas3_sinkronisasi_dist.Cache.Lines.{
  CacheLine, LruCache, move_to_end, evict, touch, get, set_last, put,
}
use tugas3_sinkronisasi_dist.Common.{IsUnique, lookup-append}
use tugas3_sinkronisasi_dist.Cache.Unique.{lookup-move_to_end, IsUnique-move_to_end}

module _ {V : Type 0} where
  pub evict-drop :
      (m : ℕ) (d : Dict String (CacheLine V))
      → ((evict m d).0 ≡ drop (length d - m) d) × ((evict m d).1 ≡ take (length d - m) d)
  unfolding evict
  evict-drop m [] = let z : 0 - m ≡ 0 = omega arith in rw z (refl, refl)
  evict-drop m (e ∷ d) = elim (Bool-cases (ltb m (length (e ∷ d)))) [
    | inl over ↦
        let n : suc (length d) - m ≡ suc (length d - m) = omega tests in
        let rest = evict-drop m d in rw (over, n) (rest.0, ap (◌∷◌ e) rest.1)
    | inr fits ↦ let n : suc (length d) - m ≡ 0 = ground arith in rw (fits, n) (refl, refl)
  ]

  IsUnique-drop : (n : ℕ) (d : Dict String (CacheLine V)) → IsUnique d → IsUnique (drop n d)
  IsUnique-drop zero d u = u
  IsUnique-drop (suc n) [] u = u
  IsUnique-drop (suc n) (e ∷ d) u = IsUnique-drop n d u.1

  -- In what is left after some entries from the front a key has the same line, or none.
  lookup-drop :
      (n : ℕ) (j : String) (d : Dict String (CacheLine V))
      → IsUnique d
      → (lookup j (drop n d) ≡ lookup j d) ⊎ (lookup j (drop n d) ≡ none)
  unfolding lookup
  lookup-drop zero j d u = inl refl
  lookup-drop (suc n) j [] u = inl refl
  lookup-drop (suc n) j ((k, l) ∷ d) u = elim (Bool-cases (k == j)) [
    | inr other ↦ rw other (lookup-drop n j d u.1)
    | inl same ↦
        let absent : lookup j d ≡ none = ground (arith, beq_eq k j same, u.0) in
        elim (lookup-drop n j d u.1) [ inl e ↦ inr (e ∙ absent) | inr e ↦ inr e ]
  ]

  lookup-drop_absent :
      (n : ℕ) (j : String) (d : Dict String (CacheLine V))
      → lookup j d ≡ none
      → lookup j (drop n d) ≡ none
  unfolding lookup
  lookup-drop_absent zero j d a = a
  lookup-drop_absent (suc n) j [] a = a
  lookup-drop_absent (suc n) j ((k, l) ∷ d) a = lookup-drop_absent n j d (ground (arith, a))

  drop-append :
      (n : ℕ) (xs ys : Dict String (CacheLine V))
      → n ≤ length xs
      → drop n (xs ++ ys) ≡ drop n xs ++ ys
  drop-append zero xs ys le = refl
  drop-append (suc n) [] ys le = absurd (omega arith)
  drop-append (suc n) (x ∷ xs) ys le = drop-append n xs ys (omega arith)

  length-pop-le : (k : String) (d : Dict String (CacheLine V)) → length (pop k d) ≤ length d
  unfolding pop
  length-pop-le k [] = omega arith
  length-pop-le k ((i, x) ∷ d) = ground (arith, length-pop-le k d)

  pub length-pop :
      (k : String) (d : Dict String (CacheLine V)) (l : CacheLine V)
      → lookup k d ≡ some l
      → length (pop k d) + 1 ≤ length d
  unfolding pop lookup
  length-pop k [] l h = cc
  length-pop k ((i, x) ∷ d) l h = ground (arith, length-pop k d l, length-pop-le k d)

  -- Putting the key that is the last.
  insert-last :
      (k : String) (l old : CacheLine V) (d : Dict String (CacheLine V))
      → lookup k d ≡ none
      → insert k l (d ++ (k, old) ∷ []) ≡ d ++ (k, l) ∷ []
  unfolding insert lookup
  insert-last k l old [] a = ground (arith, beq_refl k)
  insert-last k l old ((i, x) ∷ d) a = ground (arith, insert-last k l old d)

  pop-absent : (k : String) (d : Dict String (CacheLine V)) → lookup k d ≡ none → pop k d ≡ d
  unfolding pop lookup
  pop-absent k [] a = refl
  pop-absent k ((i, x) ∷ d) a = ground (arith, pop-absent k d)

  pub set_last-move_to_end :
      (k : String) (l : CacheLine V) (d : Dict String (CacheLine V))
      → set_last k l d ≡ move_to_end k l d
  unfolding set_last move_to_end
  set_last-move_to_end k l d = elim (Option-cases (lookup k d)) [
    | inl absent ↦ ground (arith, absent, insert-absent k l d absent, pop-absent k d absent)
    | inr (old, present) ↦ ground (
      arith,
      present,
      insert-last k l old (pop k d) (ground (arith, lookup-pop k k d, beq_refl k)),
    )
  ]

  -- The cache holds no key twice, and no more lines than its size.
  pub record IsValid (c : LruCache V) : Type 0 where
    pub unique : IsUnique c.lines
    pub bounded : length c.lines ≤ c.max_size

  pub get-IsUnique :
      (now : ℕ) (k : String) (c : LruCache V) → IsUnique c.lines → IsUnique (get now k c).0.lines
  unfolding get
  get-IsUnique now k c u = elim (Option-cases (lookup k c.lines)) [
    | inl absent ↦ rw (absent, get) u
    | inr (l, present) ↦ rw (present, get) (IsUnique-move_to_end k (touch now l) c.lines u)
  ]

  -- `get` keeps the number of lines.
  length-get :
      (now : ℕ) (k : String) (c : LruCache V) → length (get now k c).0.lines ≤ length c.lines
  unfolding get move_to_end
  length-get now k c = elim (Option-cases (lookup k c.lines)) [
    | inl absent ↦ ground (arith, absent)
    | inr (l, present) ↦ ground (
      arith,
      present,
      length-pop k c.lines l present,
      length-append (pop k c.lines) ((k, touch now l) ∷ []),
    )
  ]

  pub get-max_size : (now : ℕ) (k : String) (c : LruCache V) → (get now k c).0.max_size ≡ c.max_size
  unfolding get
  get-max_size now k c = elim (Option-cases (lookup k c.lines)) [
    | inl absent ↦ ground (arith, absent)
    | inr (l, present) ↦ ground (arith, present)
  ]

  pub get-IsValid : (now : ℕ) (k : String) (c : LruCache V) → IsValid c → IsValid (get now k c).0
  get-IsValid now k c v = record {
    unique = get-IsUnique now k c v.unique;
    bounded = omega (arith, length-get now k c, get-max_size now k c, v.bounded);
  }

  -- What `put` leaves and what it evicts: the lines with the key's line last, cut at the front.
  pub put_lem :
      (k : String) (l : CacheLine V) (c : LruCache V)
      → let d = move_to_end k l c.lines in
        ((put k l c).0.lines ≡ drop (length d - c.max_size) d)
        × ((put k l c).1 ≡ take (length d - c.max_size) d)
        × ((put k l c).0.max_size ≡ c.max_size)
  unfolding put
  put_lem k l c =
      rw set_last-move_to_end
        (let parts = evict-drop c.max_size (move_to_end k l c.lines) in (parts.0, parts.1, refl))

  pub put-IsValid :
      (k : String) (l : CacheLine V) (c : LruCache V) → IsUnique c.lines → IsValid (put k l c).0
  put-IsValid k l c u =
      let d = move_to_end k l c.lines in
      let (left, out, size) = put_lem k l c in
      record {
        unique =
            rw left (IsUnique-drop (length d - c.max_size) d (IsUnique-move_to_end k l c.lines u));
        bounded = rw (left, size) (omega (arith, length-drop (length d - c.max_size) d));
      }

  -- After `put`, the key has the line that was put, if the cache has room for one; another key has the
  -- line that it had, or was evicted.
  pub lookup-put_self :
      (k : String) (l : CacheLine V) (c : LruCache V)
      → 1 ≤ c.max_size
      → lookup k (put k l c).0.lines ≡ some l
  lookup-put_self k l c room =
      let d = pop k c.lines in
      let n = length (d ++ (k, l) ∷ []) - c.max_size in
      let (left, out, size) = put_lem k l c in
      let kept : (put k l c).0.lines ≡ drop n d ++ (k, l) ∷ [] =
        left
        ∙ (unfold move_to_end in
            drop-append n d ((k, l) ∷ []) (omega (arith, length-append d ((k, l) ∷ [])))) in
      let absent : lookup k d ≡ none = ground (arith, lookup-pop k k c.lines, beq_refl k) in
      rw kept (
        ground (arith, lookup-append k k l (drop n d), lookup-drop_absent n k d absent, beq_refl k))

  pub lookup-put :
      (k j : String) (l : CacheLine V) (c : LruCache V)
      → IsUnique c.lines
      → (lookup j (put k l c).0.lines ≡ (if k == j then some l else lookup j c.lines))
        ⊎ (lookup j (put k l c).0.lines ≡ none)
  lookup-put k j l c u =
      let d = move_to_end k l c.lines in
      let (left, out, size) = put_lem k l c in
      rw (left, ← lookup-move_to_end k j l c.lines)
        (lookup-drop (length d - c.max_size) j d (IsUnique-move_to_end k l c.lines u))

  -- In a cache whose size is at least 1, that has no key twice and is not above its size, `put` keeps both
  -- so and has the new line in it, cuts the least recently used lines off the front, and changes no other
  -- line that stays.
  pub put_keeps :
      (k : String) (l : CacheLine V) (c : LruCache V)
      → IsValid c
      → 1 ≤ c.max_size
      → IsValid (put k l c).0
        × (lookup k (put k l c).0.lines ≡ some l)
        × ((put k l c).1 ++ (put k l c).0.lines ≡ pop k c.lines ++ (k, l) ∷ [])
        × ((j : String)
            → (k == j) ≡ false
            → (lookup j (put k l c).0.lines ≡ lookup j c.lines)
              ⊎ (lookup j (put k l c).0.lines ≡ none))
  put_keeps k l c v room =
      let d = move_to_end k l c.lines in
      let (left, out, size) = put_lem k l c in
      (
        put-IsValid k l c v.unique,
        lookup-put_self k l c room,
        rw (left, out) (take-append-drop (length d - c.max_size) d ∙ (unfold move_to_end in refl)),
        λ j ne.
            subst
              (λ b.
                (lookup j (put k l c).0.lines ≡ (if b then some l else lookup j c.lines))
                ⊎ (lookup j (put k l c).0.lines ≡ none))
              ne (lookup-put k j l c v.unique),
      )
