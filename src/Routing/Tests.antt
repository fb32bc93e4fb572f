-- ===== src/Routing/Tests.antt =====
-- geo/latency_router.py: three candidates, and the theorem at them.
use tugas3_sinkronisasi_dist.Common.{
  String, true, none, some, List, [], ◌∷◌, string_eq, lookup, insert, member, All, ◌≡◌, refl, ◌⊎◌,
  map,
}
use tugas3_sinkronisasi_dist.Routing.{
  new_manager, register_node, get_latency, simulated_sleep, nodes_in, get_nodes_in_region,
  LatencyRouter, record_latency, sum, get_avg_latency, Candidate, nearest_of, get_nearest_node,
}
use tugas3_sinkronisasi_dist.Routing.Tables.{
  group_regions, get_all_regions, get_routing_table, place_candidate, get_local_first,
}
use tugas3_sinkronisasi_dist.Routing.Nearest.{IsAllowed, NoneNearer, get_nearest_node_lem}

program : Unit {0}
unfolding lookup insert member register_node get_latency simulated_sleep nodes_in record_latency sum
    get_avg_latency nearest_of get_nearest_node group_regions get_all_regions get_routing_table
    place_candidate get_local_first
program = tt

-- `b` in Europe was measured twice, `c` in Asia never.
abbrev router : LatencyRouter
router = record_latency "b" 40 (
    record_latency "b" 51 (record {
      region_manager =
          register_node "c" "h" 2 "ap-southeast"
            (register_node "b" "h" 1 "eu-west" (new_manager "a" "us-east"));
      measured_latencies = [];
    }))

abbrev candidate : String → Candidate
candidate node_id = record { node_id = node_id; host = "h"; port = 1 }

abbrev candidates : List Candidate
candidates = candidate "c" ∷ candidate "b" ∷ candidate "d" ∷ []

choices :
    (get_nearest_node candidates [] router ≡ some (candidate "b"))
    × (get_nearest_node candidates ("b" ∷ []) router ≡ some (candidate "d"))
    × (simulated_sleep "c" router.region_manager ≡ 180)
    × (get_nodes_in_region "eu-west" router.region_manager ≡ "b" ∷ [])
unfolding program
choices = (refl, refl, refl, refl)

-- `a` is the only one in the own region.
tables :
    (get_local_first (candidate "c" ∷ candidate "a" ∷ candidate "b" ∷ []) router
      ≡ candidate "a" ∷ candidate "b" ∷ candidate "c" ∷ [])
    × (get_all_regions router.region_manager
        ≡ ("us-east", "a" ∷ []) ∷ ("eu-west", "b" ∷ []) ∷ ("ap-southeast", "c" ∷ []) ∷ [])
    × (map (λ e. e.0) (get_routing_table router) ≡ "us-east" ∷ "eu-west" ∷ "ap-southeast" ∷ [])
unfolding program
tables = (refl, refl, refl)

get_nearest_node_lem_example :
    ((get_nearest_node candidates ("b" ∷ []) router ≡ none)
      × All (λ c. member c.node_id ("b" ∷ []) ≡ true) candidates)
    ⊎ ((b : Candidate) × (get_nearest_node candidates ("b" ∷ []) router ≡ some b)
        × IsAllowed router ("b" ∷ []) b candidates
        × NoneNearer router ("b" ∷ []) b candidates)
get_nearest_node_lem_example = get_nearest_node_lem router ("b" ∷ []) candidates
