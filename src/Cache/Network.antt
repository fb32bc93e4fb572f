-- ===== src/Cache/Network.antt =====
-- nodes/cache_node.py: the caches of a cluster, message by message. A read, a write and an invalidation
-- are split at their broadcasts. Between two steps of one of them other nodes may do anything, and a
-- request or a reply may be lost: then its step does not happen, or its reply does not arrive. A
-- read has a number, which its requests and their replies carry.
use tugas3_sinkronisasi_dist.Common.{
  ℕ, zero, suc, String, Bool, true, false, ◌&&◌, Option, none, some, List, [], ◌∷◌, ◌++◌,
  if◌then◌else◌, string_eq, nat_eq, ◌==◌, get_elem?, length, member, map,
}
use tugas3_sinkronisasi_dist.Cache.{
  CacheNode, ReadReply, process_invalidate, process_remote_read, begin_read, finish_read,
  finish_write, handle_invalidate, new_node,
}

-- A reply to a CACHE_READ, on its way to the read that asked.
pub record Mail (V : Type 0) : Type 0 where
  pub read : ℕ
  pub key : String
  pub reply : ReadReply V

pub record Network (V : Type 0) : Type 0 where
  pub nodes : List (CacheNode V)
  pub mail : List (Mail V)

-- The steps, with the place of the node that makes one:
-- `asks` is `cache_read` up to its broadcast, `fills` goes on after it with the replies that arrived;
-- `serves` handles the CACHE_READ of a read and `clears` a CACHE_INVALIDATE; `saves` is `cache_write`
-- after its broadcast, `forgets` is `_handle_invalidate` after its own.
pub data NetworkEvent (V : Type 0) : Type 0 where
  asks : (now node : ℕ) (key : String) → NetworkEvent V
  serves : (now node read : ℕ) (key : String) → NetworkEvent V
  fills : (now node read : ℕ) (key : String) (arrived : List ℕ) → NetworkEvent V
  clears : (node : ℕ) (key : String) → NetworkEvent V
  saves : (now node : ℕ) (key : String) (value : Option V) → NetworkEvent V
  forgets : (node : ℕ) (key : String) → NetworkEvent V

-- A change of one node.
unfoldable pub at_node : {A : Type 0} → ℕ → (A → A) → List A → List A
at_node i f [] = []
at_node zero f (x ∷ xs) = f x ∷ xs
at_node (suc i) f (x ∷ xs) = x ∷ at_node i f xs

-- All nodes below `n` but one are told.
unfoldable pub all_told : (n i : ℕ) (told : List ℕ) → Bool
all_told zero i told = true
all_told (suc p) i told =
    let rest = all_told p i told in if p == i then rest else member p told && rest

module _ {V : Type 0} where
  abbrev pub new_network : (sizes : List ℕ) → Network V
  new_network sizes = record { nodes = map new_node sizes; mail = [] }

  abbrev pub is_for : (read : ℕ) (key : String) → Mail V → Bool
  is_for read key m = m.read == read && m.key == key

  -- The results of the broadcast: the replies that arrive, in the order of the peers they come from, are
  -- given by their positions in the mail.
  unfoldable pub received :
      (read : ℕ) (key : String) → List (Mail V) → (arrived : List ℕ) → List (Option (ReadReply V))
  received read key ms [] = []
  received read key ms (p ∷ ps) =
      let rest = received read key ms ps in
      elim (get_elem? ms p) [
        | none ↦ rest
        | some m ↦ if is_for read key m then some m.reply ∷ rest else rest
      ]

  unfoldable pub keep_mail : (read : ℕ) (key : String) → List (Mail V) → List (Mail V)
  keep_mail read key [] = []
  keep_mail read key (m ∷ ms) =
      let rest = keep_mail read key ms in if is_for read key m then rest else m ∷ rest

  unfoldable pub network_step : NetworkEvent V → Network V → Network V
  network_step (asks now i key) c = record c {
    nodes = at_node i (λ n. (begin_read now key n).0) c.nodes;
  }
  network_step (serves now i read key) c = elim (get_elem? c.nodes i) [
    | none ↦ c
    | some n ↦ record {
      nodes = at_node i (λ n. (process_remote_read now key n).0) c.nodes;
      mail =
          c.mail
          ++ record { read = read; key = key; reply = (process_remote_read now key n).1 } ∷ [];
    }
  ]
  network_step (fills now i read key arrived) c = record {
    nodes = at_node i (λ n. (finish_read now key (received read key c.mail arrived) n).0) c.nodes;
    mail = keep_mail read key c.mail;
  }
  network_step (clears i key) c = record c {
    nodes = at_node i (λ n. (process_invalidate key n).0) c.nodes;
  }
  network_step (saves now i key value) c = record c {
    nodes = at_node i (finish_write now key value) c.nodes;
  }
  network_step (forgets i key) c = record c { nodes = at_node i (handle_invalidate key) c.nodes }

  unfoldable pub run_network : List (NetworkEvent V) → Network V → Network V
  run_network [] c = c
  run_network (e ∷ es) c = run_network es (network_step e c)

  -- The value that the last write to a key saved, or what it was before.
  unfoldable pub last_saved : (key : String) → List (NetworkEvent V) → Option V → Option V
  last_saved key [] v = v
  last_saved key (saves now i key' value ∷ es) v =
      last_saved key es (if key' == key then value else v)
  last_saved key (_ ∷ es) v = last_saved key es v

  -- The nodes that have handled an invalidation of the key since a read or a write of it ended last.
  abbrev pub cleared : (key : String) → NetworkEvent V → List ℕ → List ℕ
  cleared key (clears i key') told = if key' == key then i ∷ told else told
  cleared key (fills now i read key' arrived) told = if key' == key then [] else told
  cleared key (saves now i key' value) told = if key' == key then [] else told
  cleared key _ told = told

  unfoldable pub no_mail : (key : String) → List (Mail V) → Bool
  no_mail key [] = true
  no_mail key (m ∷ ms) = let rest = no_mail key ms in if m.key == key then false else rest

  -- A write may end when all other nodes have handled an invalidation of the key, no read or write of the
  -- key has ended since the first of them did, and no reply about the key is on its way.
  abbrev pub may_follow : (key : String) (told : List ℕ) → NetworkEvent V → Network V → Bool
  may_follow key told (saves now i key' value) c =
      if key' == key then all_told (length c.nodes) i told && no_mail key c.mail else true
  may_follow key told _ c = true

  unfoldable pub is_orderly :
      (key : String) (told : List ℕ) → List (NetworkEvent V) → Network V → Bool
  is_orderly key told [] c = true
  is_orderly key told (e ∷ es) c =
      let rest = is_orderly key (cleared key e told) es (network_step e c) in
      may_follow key told e c && rest
