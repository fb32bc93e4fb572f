-- ===== src/Config/Tests.antt =====
-- utils/config.py: the default configuration, and the theorems at it.
use tugas3_sinkronisasi_dist.Common.{
  String, none, some, List, [], ◌∷◌, map, string_eq, split, join, lstrip, rstrip, rsplit, is_blank,
  ℤ, pos, negsuc, negate, digits_from, parse_signed, parse_int, All, ◌≡◌, refl, arith,
}
use tugas3_sinkronisasi_dist.Config.{
  NodeConfig, default_config, NodeAddress, read_nodes, get_peer_nodes, get_all_nodes,
}
use tugas3_sinkronisasi_dist.Config.Nodes.{
  others_of, Listed, address_of, IsPlain, listed_nodes_are_read,
}

program : Unit {0}
unfolding split join lstrip rstrip rsplit is_blank negate digits_from parse_signed parse_int
    read_nodes get_peer_nodes get_all_nodes others_of
program = tt

abbrev node : String → ℤ → NodeAddress
node node_id port = record { node_id = node_id; host = node_id; port = port }

abbrev nodes : List NodeAddress
nodes = node "node-1" (pos 8001) ∷ node "node-2" (pos 8002) ∷ node "node-3" (pos 8003) ∷ []

abbrev odd_config : NodeConfig
odd_config = record default_config { cluster_nodes = " a:b: 7_0 ,x, node-1:z,c:-2" }

numbers :
    (parse_int " +1_2 " ≡ some (pos 12))
    × (parse_int "-3" ≡ some (negsuc 2))
    × (parse_int "1__2" ≡ none)
    × (parse_int "" ≡ none)
unfolding program
numbers = (refl, refl, refl, refl)

-- An entry without a colon is skipped, and so is the node's own one, unread.
odd_nodes :
    (get_peer_nodes odd_config ≡ some (node "a:b" (pos 70) ∷ node "c" (negsuc 1) ∷ []))
    × (get_all_nodes odd_config ≡ none)
unfolding program
odd_nodes = (refl, refl)

abbrev listed : String → String → ℤ → Listed
listed node_id port number = record { node_id = node_id; port = port; number = number }

abbrev all_listed : List Listed
all_listed =
    listed "node-1" "8001" (pos 8001)
    ∷ listed "node-2" "8002" (pos 8002)
    ∷ listed "node-3" "8003" (pos 8003)
    ∷ []

plain1 : IsPlain (listed "node-1" "8001" (pos 8001))
unfolding program
plain1 = record {
  no_comma = omega arith;
  no_blank =
      (refl, (refl, (refl, (refl, (refl, (refl, (refl, (refl, (refl, (refl, (refl, tt)))))))))));
  no_colon = omega arith;
  is_number = refl;
}

plain2 : IsPlain (listed "node-2" "8002" (pos 8002))
unfolding program
plain2 = record {
  no_comma = omega arith;
  no_blank =
      (refl, (refl, (refl, (refl, (refl, (refl, (refl, (refl, (refl, (refl, (refl, tt)))))))))));
  no_colon = omega arith;
  is_number = refl;
}

plain3 : IsPlain (listed "node-3" "8003" (pos 8003))
unfolding program
plain3 = record {
  no_comma = omega arith;
  no_blank =
      (refl, (refl, (refl, (refl, (refl, (refl, (refl, (refl, (refl, (refl, (refl, tt)))))))))));
  no_colon = omega arith;
  is_number = refl;
}

All-IsPlain : All IsPlain all_listed
unfolding program
All-IsPlain = (plain1, (plain2, (plain3, tt)))

listed_nodes_are_read_example : get_all_nodes default_config ≡ some (map address_of all_listed)
listed_nodes_are_read_example =
    listed_nodes_are_read default_config (listed "node-1" "8001" (pos 8001))
      (listed "node-2" "8002" (pos 8002) ∷ listed "node-3" "8003" (pos 8003) ∷ [])
      (unfold program in refl) All-IsPlain
