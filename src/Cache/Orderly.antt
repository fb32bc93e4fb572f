-- ===== src/Cache/Orderly.antt =====
-- nodes/cache_node.py: what reads return while reads, writes and invalidations of several nodes overlap.
use tugas3_sinkronisasi_dist.Common.{
  nat_eq, ◌++◌, ℕ, String, true, ◌&&◌, Option, none, some, List, [], ◌∷◌, string_eq, nat_eq, ◌==◌,
  get_elem?, length, member, All, All-get_elem?, Bool-cases, Option-cases, ◌≡◌, refl, sym, ap, ◌∙◌,
  ◌⊎◌, inl, inr, arith, beq_eq, beq_refl, subst,
}
use tugas3_sinkronisasi_dist.Cache.{
  CacheNode, ReadReply, found_value, process_remote_read, process_invalidate, begin_read,
  finish_read, handle_invalidate,
}
use tugas3_sinkronisasi_dist.Cache.Copies.{
  Copy, Copy, copy, value_of, begin_read-copy, begin_read-value,
}
use tugas3_sinkronisasi_dist.Cache.Effects.{offered, remote_read-value, Agrees}
use tugas3_sinkronisasi_dist.Cache.Validity.{
  begin_read-IsValid, process_invalidate-IsValid, handle_invalidate-IsValid,
}
use tugas3_sinkronisasi_dist.Cache.Coherence.{IsCoherent}
use tugas3_sinkronisasi_dist.Cache.Writes.{invalidate-Weaker, drop-Weaker}
use tugas3_sinkronisasi_dist.Cache.Network.{
  Mail, is_for, Network, NetworkEvent, asks, serves, fills, clears, saves, forgets, received,
  network_step, run_network, last_saved, cleared, all_told, no_mail, may_follow, is_orderly,
}
use tugas3_sinkronisasi_dist.Cache.Sound.{
  IsFresh, IsSound, weaken-IsSound, clears-IsSound, serves-IsSound,
}
use tugas3_sinkronisasi_dist.Cache.Fills.{fills-IsSound, other_fills-IsSound}
use tugas3_sinkronisasi_dist.Cache.Received.{found_value-received, found_value-arrived}
use tugas3_sinkronisasi_dist.Cache.Saves.{saves-IsSound, other_saves-IsSound}
use tugas3_sinkronisasi_dist.Cache.Runs.{new-IsCoherent}
use tugas3_sinkronisasi_dist.Cache.Network.{new_network, at_node}

last_elem : {A : Type 0} (x : A) (xs : List A) → get_elem? (xs ++ x ∷ []) (length xs) ≡ some x
last_elem x [] = refl
last_elem x (y ∷ xs) = last_elem x xs

module _ {V : Type 0} where
  step-IsSound :
      (e : NetworkEvent V) (j : String) (v : Option V) (told : List ℕ) (c : Network V)
      → may_follow j told e c ≡ true
      → IsSound j v told c
      → IsSound j (last_saved j (e ∷ []) v) (cleared j e told) (network_step e c)
  unfolding network_step last_saved
  step-IsSound (asks now i k) j v told c may s =
      weaken-IsSound j v told i (λ n. (begin_read now k n).0) c
        (λ n w. (begin_read-IsValid now k n w, inr (inl (begin_read-copy now k j n)))) s
  step-IsSound (serves now i read k) j v told c may s = serves-IsSound now i read k j v told c s
  step-IsSound (fills now i read k bs) j v told c may s = elim (Bool-cases (k == j)) [
    | inl same ↦ rw same (
        subst (λ k. IsSound j v [] (network_step (fills now i read k bs) c)) (sym (beq_eq k j same))
          (fills-IsSound now i read j v bs told c s))
    | inr other ↦ rw other (other_fills-IsSound now i read k j v bs told c other s)
  ]
  step-IsSound (clears i k) j v told c may s = elim (Bool-cases (k == j)) [
    | inl same ↦ rw same (
        subst (λ k. IsSound j v (i ∷ told) (network_step (clears i k) c)) (sym (beq_eq k j same))
          (clears-IsSound j v told i c s))
    | inr other ↦ rw other (
        weaken-IsSound j v told i (λ n. (process_invalidate k n).0) c
          (λ n w. (process_invalidate-IsValid k n w, invalidate-Weaker k j n)) s)
  ]
  step-IsSound (saves now i k w) j v told c may s = elim (Bool-cases (k == j)) [
    | inl same ↦
        let both : (all_told (length c.nodes) i told && no_mail j c.mail) ≡ true =
          ground (arith, may, same) in
        rw same (
          subst (λ k. IsSound j w [] (network_step (saves now i k w) c)) (sym (beq_eq k j same))
            (saves-IsSound now i j w v told c (ground (arith, both)) (ground (arith, both)) s))
    | inr other ↦ rw other (other_saves-IsSound now i k j w v told c other s)
  ]
  step-IsSound (forgets i k) j v told c may s =
      weaken-IsSound j v told i (handle_invalidate k) c
        (λ n w. (handle_invalidate-IsValid k n w, drop-Weaker k j n)) s

  last_saved-cons :
      (j : String) (e : NetworkEvent V) (es : List (NetworkEvent V)) (v : Option V)
      → last_saved j (e ∷ es) v ≡ last_saved j es (last_saved j (e ∷ []) v)
  unfolding last_saved
  last_saved-cons j (asks now i k) es v = refl
  last_saved-cons j (serves now i read k) es v = refl
  last_saved-cons j (fills now i read k bs) es v = refl
  last_saved-cons j (clears i k) es v = refl
  last_saved-cons j (saves now i k w) es v = refl
  last_saved-cons j (forgets i k) es v = refl

  run-IsSound :
      (es : List (NetworkEvent V)) (j : String) (v : Option V) (told : List ℕ) (c : Network V)
      → is_orderly j told es c ≡ true
      → IsSound j v told c
      → (told' : List ℕ) × IsSound j (last_saved j es v) told' (run_network es c)
  unfolding run_network is_orderly
  run-IsSound [] j v told c orderly s = (told, unfold last_saved in s)
  run-IsSound (e ∷ es) j v told c orderly s =
      let (told', s') =
        run-IsSound es j (last_saved j (e ∷ []) v) (cleared j e told) (network_step e c)
          (ground (arith, orderly)) (step-IsSound e j v told c (ground (arith, orderly)) s) in
      (
        told',
        subst (λ w. IsSound j w told' (run_network es (network_step e c)))
            (sym (last_saved-cons j e es v)) s',
      )

  new-IsSound : (j : String) (sizes : List ℕ) → IsSound {V = V} j none [] (new_network sizes)
  new-IsSound j sizes = record {
    coherent = new-IsCoherent j none sizes;
    silent = λ p n m at. absurd (unfold member in cc);
    fresh = tt;
  }

  -- Let new nodes read, write and invalidate in steps that are interleaved in any way, with any messages
  -- lost, but so that each write of a key ends after all other nodes have handled an invalidation of it,
  -- with no read or write of the key ended since the first of them did and no reply about the key on its
  -- way. Then every copy of the key holds the value of the last write to it, and a node that has it
  -- modified or exclusive has the only copy.
  pub run_network-IsCoherent :
      (es : List (NetworkEvent V)) (j : String) (sizes : List ℕ)
      → is_orderly j [] es (new_network sizes) ≡ true
      → IsCoherent j (last_saved j es none) (run_network es (new_network sizes)).nodes
  run_network-IsCoherent es j sizes orderly =
      (run-IsSound es j none [] (new_network sizes) orderly (new-IsSound j sizes)).1.coherent

  hit-lem :
      (v : Option V) (o : Option (Copy V))
      → Agrees v o
      → (value_of o ≡ none) ⊎ (value_of o ≡ some v)
  hit-lem v none a = inl refl
  hit-lem v (some c) a = inr (ap some a)

  fill-value :
      (now : ℕ) (k : String) (rs : List (Option (ReadReply V))) (n : CacheNode V)
      → (finish_read now k rs n).1 ≡ found_value none rs
  unfolding finish_read
  fill-value now k rs n = elim (Option-cases (found_value none rs)) [
    | inl e ↦ rw (e, finish_read) refl
    | inr (v, e) ↦ rw (e, finish_read) refl
  ]

  -- In a run of new nodes in which each write of the key ends after all other nodes have handled an
  -- invalidation of it, with no read or write of it ended since the first of them did and no reply about
  -- it on its way, a read of the key at any node returns the value of the last write or nothing, whether
  -- it hits or goes on after its broadcast, whichever of the replies on their way arrive.
  pub reads_are_current :
      (es : List (NetworkEvent V)) (sizes : List ℕ) (now i read : ℕ) (j : String) (arrived : List ℕ)
      (me : CacheNode V)
      → is_orderly j [] es (new_network sizes) ≡ true
      → get_elem? (run_network es (new_network sizes)).nodes i ≡ some me
      → let c = run_network es (new_network sizes) in
        let value = (finish_read now j (received read j c.mail arrived) me).1 in
        (((begin_read now j me).1 ≡ none) ⊎ ((begin_read now j me).1 ≡ some (last_saved j es none)))
        × ((value ≡ none) ⊎ (value ≡ last_saved j es none))
  reads_are_current es sizes now i read j arrived me orderly at =
      let c = run_network es (new_network sizes) in
      let v = last_saved j es none in
      let s = (run-IsSound es j none [] (new_network sizes) orderly (new-IsSound j sizes)).1 in
      let rs = received read j c.mail arrived in
      let agrees = All-get_elem? (λ n. Agrees v (copy j n)) c.nodes i me at s.coherent.agrees in
      (
        elim (hit-lem v (copy j me) agrees) [
          | inl e ↦ inl (begin_read-value now j me ∙ e)
          | inr e ↦ inr (begin_read-value now j me ∙ e)
        ],
        elim (found_value-received read j v none c.nodes c.mail arrived s.fresh (inl refl)) [
          | inl e ↦ inl (fill-value now j rs me ∙ e)
          | inr (e, nobody) ↦ inr (fill-value now j rs me ∙ e)
        ],
      )

  -- After a run of new nodes in which each write of the key ends after all other nodes have handled an
  -- invalidation of it, with no read or write of it ended since the first of them did and no reply about
  -- it on its way: if a node that has a copy of the key serves a read of it, and its reply is among those
  -- that arrive, then the read returns the value of the last write.
  pub read_finds_copy :
      (es : List (NetworkEvent V)) (sizes : List ℕ) (now now' read p : ℕ) (j : String)
      (arrived : List ℕ) (me n : CacheNode V) (x : Copy V)
      → is_orderly j [] es (new_network sizes) ≡ true
      → get_elem? (run_network es (new_network sizes)).nodes p ≡ some n
      → copy j n ≡ some x
      → member (length (run_network es (new_network sizes)).mail) arrived ≡ true
      → let c' = network_step (serves now p read j) (run_network es (new_network sizes)) in
        (finish_read now' j (received read j c'.mail arrived) me).1 ≡ last_saved j es none
  unfolding network_step
  read_finds_copy es sizes now now' read p j arrived me n x orderly at has arrives =
      let c = run_network es (new_network sizes) in
      let v = last_saved j es none in
      let (told, s) = run-IsSound es j none [] (new_network sizes) orderly (new-IsSound j sizes) in
      let agreed : x.value ≡ v =
        subst (Agrees v) has
          (All-get_elem? (λ n. Agrees v (copy j n)) c.nodes p n at s.coherent.agrees) in
      let m : Mail V = record { read = read; key = j; reply = (process_remote_read now j n).1 } in
      let mine : is_for read j m ≡ true = rw (beq_refl read, beq_refl j) refl in
      let offer : offered m.reply ≡ some v =
        remote_read-value now j n ∙ ap value_of has ∙ ap some agreed in
      let c' : Network V = record {
        nodes = at_node p (λ n. (process_remote_read now j n).0) c.nodes;
        mail = c.mail ++ m ∷ [];
      } in
      let served : network_step (serves now p read j) c ≡ c' = rw (at, network_step) refl in
      let fresh : All (IsFresh j v c'.nodes) c'.mail =
        subst (λ c. All (IsFresh j v c.nodes) c.mail) served
          (serves-IsSound now p read j j v told c s).fresh in
      rw served (
        fill-value now' j (received read j c'.mail arrived) me
        ∙ found_value-arrived read (length c.mail) j v none c'.nodes c'.mail m arrived fresh
            (last_elem m c.mail) mine offer arrives)
