-- ===== src/Unified/CacheReads.antt =====
-- main.py: a get that follows a put of the same key, at any node, returns what was put.
use tugas3_sinkronisasi_dist.Common.{
  ℕ, ◌≤◌, String, Option, none, some, List, [], ◌∷◌, ◌++◌, map, string_eq, lookup, lookup-insert,
  ◌≡◌, refl, ap, ◌∙◌, arith, beq_refl, Bool-cases, Option-cases, inl, inr,
}
use tugas3_sinkronisasi_dist.Cache.Lines.{
  CacheLine, modified, is_valid, is_owner, new_line, invalidate,
}
use tugas3_sinkronisasi_dist.Cache.Lru.{lookup-put_self}
use tugas3_sinkronisasi_dist.Cache.Copies.{get-present, get-absent}
use tugas3_sinkronisasi_dist.Unified.CacheLines.{
  NodeCache, NodeReply, found, not_found, hit, node_invalidate, serve_line, node_read, line_value,
  begin_get, first_found, finish_get, node_get, node_put,
}

module _ {V : Type 0} where
  -- The value that a node's cache has under a key, if it has a valid line.
  abbrev pub cached : String → NodeCache V → Option (Option V)
  cached key n = line_value (lookup key n.cache.lines)

  abbrev offered : NodeReply V → Option (Option V)
  offered (found v) = some v
  offered not_found = none

  serve_line-offered :
      (key : String) (l : CacheLine V) (n : NodeCache V)
      → offered (serve_line key l n).1 ≡ line_value (some l)
  serve_line-offered key l n = elim (Bool-cases (is_valid l.state)) [
    | inl valid ↦ elim (Bool-cases (is_owner l.state)) [
      | inl owner ↦ rw (valid, owner) refl
      | inr other ↦ rw (valid, other) refl
    ]
    | inr lost ↦ rw lost refl
  ]

  node_read-offered :
      (now : ℕ) (key : String) (n : NodeCache V) → offered (node_read now key n).1 ≡ cached key n
  unfolding node_read
  node_read-offered now key n = elim (Option-cases (lookup key n.cache.lines)) [
    | inl absent ↦
        let (got, kept) = get-absent now key n.cache absent in rw (got, node_read, absent) refl
    | inr (l, present) ↦
        let (got, kept) = get-present now key l n.cache present in
        rw (got, node_read, present) (serve_line-offered key _ _)
  ]

  begin_get-value :
      (now : ℕ) (key : String) (n : NodeCache V) → (begin_get now key n).1 ≡ cached key n
  unfolding begin_get
  begin_get-value now key n = elim (Option-cases (lookup key n.cache.lines)) [
    | inl absent ↦
        let (got, kept) = get-absent now key n.cache absent in ground (arith, got, absent)
    | inr (l, present) ↦
        let (got, kept) = get-present now key l n.cache present in ground (arith, got, present)
  ]

  invalidate-cached : (key : String) (n : NodeCache V) → cached key (node_invalidate key n) ≡ none
  unfolding node_invalidate invalidate
  invalidate-cached key n = elim (Option-cases (lookup key n.cache.lines)) [
    | inl absent ↦ rw (absent, node_invalidate, invalidate) (ap line_value absent)
    | inr (l, present) ↦ rw (present, node_invalidate, invalidate, lookup-insert, beq_refl key) refl
  ]

  put-cached :
      (now : ℕ) (key : String) (v : Option V) (n : NodeCache V)
      → 1 ≤ n.cache.max_size
      → cached key (node_put now key v n) ≡ some v
  unfolding node_put
  put-cached now key v n room =
      ap line_value (lookup-put_self key (new_line now key v modified) n.cache room)

  -- The replies of some nodes to a CACHE_READ.
  abbrev pub read_replies :
      (now : ℕ) (key : String) → List (NodeCache V) → List (Option (NodeReply V))
  read_replies now key ns = map (λ n. some (node_read now key n).1) ns

  first_found-skip :
      (r : NodeReply V) (rs : List (Option (NodeReply V)))
      → offered r ≡ none
      → first_found (some r ∷ rs) ≡ first_found rs
  unfolding first_found
  first_found-skip (found v) rs h = absurd cc
  first_found-skip not_found rs h = refl

  first_found-take :
      (r : NodeReply V) (rs : List (Option (NodeReply V))) (v : Option V)
      → offered r ≡ some v
      → first_found (some r ∷ rs) ≡ some v
  unfolding first_found
  first_found-take (found w) rs v h = h
  first_found-take not_found rs v h = absurd cc

  writer_found :
      (now : ℕ) (key : String) (v : Option V) (w : NodeCache V) (front back : List (NodeCache V))
      → cached key w ≡ some v
      → first_found (read_replies now key (map (node_invalidate key) front ++ w ∷ back)) ≡ some v
  writer_found now key v w [] back h =
      first_found-take (node_read now key w).1 (read_replies now key back) v
        (node_read-offered now key w ∙ h)
  writer_found now key v w (n ∷ front) back h =
      let n' = node_invalidate key n in
      first_found-skip (node_read now key n').1
        (read_replies now key (map (node_invalidate key) front ++ w ∷ back))
        (node_read-offered now key n' ∙ invalidate-cached key n)
      ∙ writer_found now key v w front back h

  node_get-hit :
      (now : ℕ) (key : String) (v : Option V) (rs : List (Option (NodeReply V))) (n : NodeCache V)
      → cached key n ≡ some v
      → (node_get now key rs n).1 ≡ hit v
  unfolding node_get
  node_get-hit now key v rs n h = ground (arith, begin_get-value now key n, h)

  node_get-remote :
      (now : ℕ) (key : String) (v : Option V) (rs : List (Option (NodeReply V))) (n : NodeCache V)
      → cached key n ≡ none
      → first_found rs ≡ some v
      → (node_get now key rs n).1 ≡ hit v
  unfolding node_get finish_get
  node_get-remote now key v rs n h first = ground (arith, begin_get-value now key n, h, first)

  -- After a put at a node whose cache has room for a line, whose invalidations reach the other nodes,
  -- a get at the node itself returns the value that was put, and so does a get at another node whose
  -- reads reach the peers, the writer among them.
  pub get_after_put :
      (now now' : ℕ) (key : String) (v : Option V) (writer reader : NodeCache V)
      (front back : List (NodeCache V))
      → 1 ≤ writer.cache.max_size
      → let writer' = node_put now key v writer in
        let invalidated = map (node_invalidate key) in
        let replies = read_replies now' key (invalidated front ++ writer' ∷ invalidated back) in
        ((rs : List (Option (NodeReply V))) → (node_get now' key rs writer').1 ≡ hit v)
        × ((node_get now' key replies (node_invalidate key reader)).1 ≡ hit v)
  get_after_put now now' key v writer reader front back room =
      let holds = put-cached now key v writer room in
      let writer' = node_put now key v writer in
      let back' = map (node_invalidate key) back in
      (
        λ rs. node_get-hit now' key v rs writer' holds,
        node_get-remote now' key v
            (read_replies now' key (map (node_invalidate key) front ++ writer' ∷ back'))
            (node_invalidate key reader) (invalidate-cached key reader)
            (writer_found now' key v writer' front back' holds),
      )
