-- ===== src/Routing/Tables.antt =====
-- geo/region_manager.py and geo/latency_router.py: the tables of regions, and the candidates in order.
use tugas3_sinkronisasi_dist.Common.{
  ℕ, String, Bool, true, false, List, [], ◌∷◌, ◌++◌, map, if◌then◌else◌, or_else, string_eq, ◌==◌,
  length, Dict, lookup, insert,
}
use tugas3_sinkronisasi_dist.Routing.{
  RegionManager, get_region, get_nodes_in_region, LatencyRouter, Average, below, get_avg_latency,
  Candidate,
}

abbrev pub get_local_nodes : RegionManager → List String
get_local_nodes g = get_nodes_in_region g.region g

-- `regions.setdefault(r, []).append(nid)`
abbrev pub add_to_region :
    (node_id region : String) → Dict String (List String) → Dict String (List String)
add_to_region node_id region d = insert region (or_else (lookup region d) [] ++ node_id ∷ []) d

unfoldable pub group_regions :
    Dict String String → Dict String (List String) → Dict String (List String)
group_regions [] regions = regions
group_regions ((node_id, region) ∷ d) regions =
    group_regions d (add_to_region node_id region regions)

unfoldable pub get_all_regions : RegionManager → Dict String (List String)
get_all_regions g = group_regions g.node_regions []

pub record Route : Type 0 where
  pub node_id : String
  pub avg_latency_ms : Average
  pub samples : ℕ

abbrev pub route_to : LatencyRouter → String → Route
route_to r node_id = record {
  node_id = node_id;
  avg_latency_ms = get_avg_latency node_id r;
  samples = length (or_else (lookup node_id r.measured_latencies) []);
}

unfoldable pub get_routing_table : LatencyRouter → Dict String (List Route)
get_routing_table r = map (λ e. (e.0, map (route_to r) e.1)) (get_all_regions r.region_manager)

abbrev pub is_local : LatencyRouter → Candidate → Bool
is_local r c = or_else (get_region c.node_id r.region_manager) "" == r.region_manager.region

-- `sort_key(a) < sort_key(b)`
abbrev pub comes_before : LatencyRouter → Candidate → Candidate → Bool
comes_before r a b =
    if is_local r a
    then (if is_local r b
        then below (get_avg_latency a.node_id r) (get_avg_latency b.node_id r)
        else true)
    else (if is_local r b
        then false
        else below (get_avg_latency a.node_id r) (get_avg_latency b.node_id r))

-- `sorted(candidates, key=sort_key)`, which keeps the order of equal keys
unfoldable pub place_candidate : LatencyRouter → Candidate → List Candidate → List Candidate
place_candidate r c [] = c ∷ []
place_candidate r c (x ∷ xs) =
    let rest = place_candidate r c xs in if comes_before r x c then x ∷ rest else c ∷ x ∷ xs

unfoldable pub get_local_first : List Candidate → LatencyRouter → List Candidate
get_local_first [] r = []
get_local_first (c ∷ cs) r = place_candidate r c (get_local_first cs r)
