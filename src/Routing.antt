-- ===== src/Routing.antt =====
-- geo/region_manager.py and geo/latency_router.py: regions, the latency matrix, and the choice of the
-- nearest node. Latencies are in whole milliseconds; an average is kept as its sum and its count, and
-- two are compared by cross multiplication, where the source compares rounded quotients.
pub mod Nearest
pub mod Tables
pub mod Regions
pub mod Order
pub mod Tests
use tugas3_sinkronisasi_dist.Common.{
  ℕ, ◌+◌, ◌-◌, ◌*◌, String, Bool, true, false, Option, none, some, List, [], ◌∷◌, ◌++◌, ltb,
  if◌then◌else◌, or_else, string_eq, ◌==◌, length, drop, member, Dict, lookup, insert,
}

abbrev pub LatencyMatrix : Type 0
LatencyMatrix = Dict String (Dict String ℕ)

abbrev pub latency_matrix : LatencyMatrix
latency_matrix =
    ("us-east", ("us-east", 1) ∷ ("ap-southeast", 180) ∷ ("eu-west", 90) ∷ [])
    ∷ ("ap-southeast", ("us-east", 180) ∷ ("ap-southeast", 1) ∷ ("eu-west", 200) ∷ [])
    ∷ ("eu-west", ("us-east", 90) ∷ ("ap-southeast", 200) ∷ ("eu-west", 1) ∷ [])
    ∷ []

pub record NodeInfo : Type 0 where
  pub host : String
  pub port : ℕ
  pub region : String

pub record RegionManager : Type 0 where
  pub node_id : String
  pub region : String
  pub node_regions : Dict String String
  pub node_info : Dict String NodeInfo

abbrev pub new_manager : (node_id region : String) → RegionManager
new_manager node_id region = record {
  node_id = node_id;
  region = region;
  node_regions = (node_id, region) ∷ [];
  node_info = [];
}

unfoldable pub register_node :
    (node_id host : String) (port : ℕ) (region : String) → RegionManager → RegionManager
register_node node_id host port region g = record g {
  node_regions = insert node_id region g.node_regions;
  node_info = insert node_id (record { host = host; port = port; region = region }) g.node_info;
}

abbrev pub get_region : String → RegionManager → Option String
get_region node_id g = lookup node_id g.node_regions

unfoldable pub get_latency : (from_region to_region : String) → ℕ
get_latency from_region to_region =
    or_else (lookup to_region (or_else (lookup from_region latency_matrix) [])) 100

-- What `simulate_latency` sleeps, in milliseconds.
unfoldable pub simulated_sleep : (target_node_id : String) → RegionManager → ℕ
simulated_sleep target_node_id g =
    let latency_ms =
      get_latency g.region (or_else (lookup target_node_id g.node_regions) g.region) in
    if ltb 1 latency_ms then latency_ms else 0

unfoldable pub nodes_in : (region : String) → Dict String String → List String
nodes_in region [] = []
nodes_in region ((node_id, r) ∷ d) =
    let rest = nodes_in region d in if r == region then node_id ∷ rest else rest

abbrev pub get_nodes_in_region : (region : String) → RegionManager → List String
get_nodes_in_region region g = nodes_in region g.node_regions

pub record LatencyRouter : Type 0 where
  pub region_manager : RegionManager
  pub measured_latencies : Dict String (List ℕ)

-- The last 50 samples are kept.
unfoldable pub record_latency : (node_id : String) (latency_ms : ℕ) → LatencyRouter → LatencyRouter
record_latency node_id latency_ms r =
    let samples = or_else (lookup node_id r.measured_latencies) [] ++ latency_ms ∷ [] in
    record r {
      measured_latencies =
          insert node_id
            (if ltb 50 (length samples) then drop (length samples - 50) samples else samples)
            r.measured_latencies;
    }

unfoldable pub sum : List ℕ → ℕ
sum [] = 0
sum (x ∷ xs) = x + sum xs

-- A sum and a count of at least 1.
pub record Average : Type 0 where
  pub total : ℕ
  pub samples : ℕ

-- `a < b`
abbrev pub below : Average → Average → Bool
below a b = ltb (a.total * b.samples) (b.total * a.samples)

-- The fall-back of `get_avg_latency`: an unknown region, or an empty one, counts as 100.
abbrev pub simulated : (own_region : String) → Option String → Average
simulated own_region none = record { total = 100; samples = 1 }
simulated own_region (some region) =
    if region == ""
    then record { total = 100; samples = 1 }
    else record { total = get_latency own_region region; samples = 1 }

abbrev pub measured : List ℕ → Average → Average
measured [] fallback = fallback
measured (s ∷ ss) fallback = record { total = sum (s ∷ ss); samples = length (s ∷ ss) }

unfoldable pub get_avg_latency : (node_id : String) → LatencyRouter → Average
get_avg_latency node_id r =
    measured (or_else (lookup node_id r.measured_latencies) [])
      (simulated r.region_manager.region (get_region node_id r.region_manager))

pub record Candidate : Type 0 where
  pub node_id : String
  pub host : String
  pub port : ℕ

-- `lat < best_latency`, where `best_latency` starts as infinity and is that of the best afterwards
abbrev pub improves : LatencyRouter → Candidate → Option Candidate → Bool
improves r c none = true
improves r c (some b) = below (get_avg_latency c.node_id r) (get_avg_latency b.node_id r)

-- The loop of `get_nearest_node`.
unfoldable pub nearest_of :
    LatencyRouter → (exclude : List String) → List Candidate → Option Candidate → Option Candidate
nearest_of r exclude [] best = best
nearest_of r exclude (c ∷ cs) best =
    nearest_of r exclude cs
      (if member c.node_id exclude then best else if improves r c best then some c else best)

unfoldable pub get_nearest_node :
    (candidates : List Candidate) (exclude : List String) → LatencyRouter → Option Candidate
get_nearest_node candidates exclude r = nearest_of r exclude candidates none
