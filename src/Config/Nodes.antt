-- ===== src/Config/Nodes.antt =====
-- utils/config.py: the node lists are those that `cluster_nodes` lists, and the peers are the others.
use text.Mathlib.TextLemmas.{nil-append, cons-append}
use tugas3_sinkronisasi_dist.Common.{
  String, true, not, some, List, [], ◌∷◌, map, if◌then◌else◌, string_eq, ◌==◌, split, join, strip,
  rsplit, is_blank, ℤ, parse_int, ◌⧺◌, Lacks, HasNone, split-join, rsplit-append, strip_of_HasNone,
  All, ◌≡◌, refl, ap, ◌∙◌, subst, arith, Bool-cases, Option-cases, inl, inr,
}
use tugas3_sinkronisasi_dist.Config.{
  NodeConfig, NodeAddress, read_nodes, get_peer_nodes, get_all_nodes,
}

unfoldable pub others_of : (node_id : String) → List NodeAddress → List NodeAddress
others_of node_id [] = []
others_of node_id (n ∷ ns) =
    let rest = others_of node_id ns in if n.node_id == node_id then rest else n ∷ rest

read_nodes-others_of :
    (node_id : String) (entries : List String) (ns : List NodeAddress)
    → read_nodes (λ n. true) entries ≡ some ns
    → read_nodes (λ n. not (n == node_id)) entries ≡ some (others_of node_id ns)
unfolding read_nodes others_of
read_nodes-others_of node_id [] ns h =
    let e : [] ≡ ns = cc in ap (λ l. some (others_of node_id l)) e
read_nodes-others_of node_id (entry ∷ entries) ns h =
    elim (Option-cases (rsplit b':' (strip is_blank entry))) [
      | inl odd ↦
          let h' : read_nodes (λ n. true) entries ≡ some ns = ground (arith, h, odd) in
          rw (odd, read_nodes) (read_nodes-others_of node_id entries ns h')
      | inr ((name, port), parts) ↦ elim (Option-cases (parse_int port)) [
        | inl bad ↦ absurd (ground (arith, h, parts, bad))
        | inr (number, good) ↦ elim (Option-cases (read_nodes (λ n. true) entries)) [
          | inl bad ↦ absurd (ground (arith, h, parts, good, bad))
          | inr (ms, rest) ↦
              let node : NodeAddress = record { node_id = name; host = name; port = number } in
              let e : node ∷ ms ≡ ns = ground (arith, h, parts, good, rest) in
              let ih = read_nodes-others_of node_id entries ms rest in
              subst
                (λ l.
                  read_nodes (λ n. not (n == node_id)) (entry ∷ entries)
                  ≡ some (others_of node_id l))
                e
                (elim (Bool-cases (name == node_id)) [
                  | inl own ↦ rw (parts, read_nodes, own, ih) refl
                  | inr other ↦ rw (parts, read_nodes, other, good, ih) refl
                ])
        ]
      ]
    ]

-- Where all nodes can be read, the peers are all but those of the node's own id.
pub peers_are_others :
    (c : NodeConfig) (ns : List NodeAddress)
    → get_all_nodes c ≡ some ns
    → get_peer_nodes c ≡ some (others_of c.node_id ns)
unfolding get_all_nodes get_peer_nodes
peers_are_others c ns h = read_nodes-others_of c.node_id (split b',' c.cluster_nodes) ns h

-- A node as it is written in `cluster_nodes`, and the number that its port is read as.
pub record Listed : Type 0 where
  pub node_id : String
  pub port : String
  pub number : ℤ

abbrev pub entry_of : Listed → String
entry_of n = n.node_id ⧺ (":" ⧺ n.port)

abbrev pub address_of : Listed → NodeAddress
address_of n = record { node_id = n.node_id; host = n.node_id; port = n.number }

-- Its texts can be told apart again: no comma, no white space, and no colon in the port.
pub record IsPlain (n : Listed) : Type 0 where
  pub no_comma : Lacks b',' (entry_of n)
  pub no_blank : HasNone is_blank (entry_of n)
  pub no_colon : Lacks b':' n.port
  pub is_number : parse_int n.port ≡ some n.number

colon : (s : String) → ":" ⧺ s ≡ String.◌∷◌ ":" s
colon s = cons-append ":" "" s ∙ ap (String.◌∷◌ ":") (nil-append s)

read_nodes-entries :
    (ns : List Listed)
    → All IsPlain ns
    → read_nodes (λ n. true) (map entry_of ns) ≡ some (map address_of ns)
unfolding read_nodes
read_nodes-entries [] h = refl
read_nodes-entries (n ∷ ns) (plain, h) =
    let parts : rsplit b':' (strip is_blank (entry_of n)) ≡ some (n.node_id, n.port) =
      ap (rsplit b':') (strip_of_HasNone is_blank (entry_of n) plain.no_blank)
      ∙ ap (λ t. rsplit b':' (n.node_id ⧺ t)) (colon n.port)
      ∙ rsplit-append b':' n.node_id n.port ":" refl plain.no_colon in
    rw (parts, read_nodes, plain.is_number, read_nodes-entries ns h) refl

All-entries : (ns : List Listed) → All IsPlain ns → All (Lacks b',') (map entry_of ns)
All-entries [] h = tt
All-entries (n ∷ ns) (plain, h) = (plain.no_comma, All-entries ns h)

-- A comma-separated list of entries id:port, with no white space, no further commas and no colon in a
-- port, is read as the nodes that it lists.
pub listed_nodes_are_read :
    (c : NodeConfig) (n : Listed) (ns : List Listed)
    → c.cluster_nodes ≡ join "," (map entry_of (n ∷ ns))
    → All IsPlain (n ∷ ns)
    → get_all_nodes c ≡ some (map address_of (n ∷ ns))
unfolding get_all_nodes
listed_nodes_are_read c n ns e h =
    ap (λ t. read_nodes (λ n. true) (split b',' t)) e
    ∙ ap (read_nodes (λ n. true))
        (split-join b',' "," (entry_of n) (map entry_of ns) refl (All-entries (n ∷ ns) h))
    ∙ read_nodes-entries (n ∷ ns) h
