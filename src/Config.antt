-- ===== src/Config.antt =====
-- utils/config.py: `NodeConfig`, its defaults, and the node lists that are read from `cluster_nodes`.
-- Times are in milliseconds. What pydantic reads from the environment is a value of the record.
pub mod Nodes
pub mod Tests
use tugas3_sinkronisasi_dist.Common.{
  ℕ, String, Bool, true, false, not, Option, none, some, List, [], ◌∷◌, if◌then◌else◌, string_eq,
  ◌==◌, split, strip, rsplit, is_blank, ℤ, parse_int, ◌>>=◌,
}

pub record NodeConfig : Type 0 where
  pub node_id : String
  pub node_host : String
  pub node_port : ℕ
  pub redis_host : String
  pub redis_port : ℕ
  pub cluster_nodes : String
  pub node_region : String
  pub enable_tls : Bool
  pub enable_rbac : Bool
  pub secret_key : String
  pub log_level : String
  pub cache_max_size : ℕ
  pub queue_replication_factor : ℕ
  pub lock_lease_timeout : ℕ
  pub raft_election_timeout_min : ℕ
  pub raft_election_timeout_max : ℕ
  pub raft_heartbeat_interval : ℕ

abbrev pub default_config : NodeConfig
default_config = record {
  node_id = "node-1";
  node_host = "0.0.0.0";
  node_port = 8001;
  redis_host = "redis";
  redis_port = 6379;
  cluster_nodes = "node-1:8001,node-2:8002,node-3:8003";
  node_region = "ap-southeast";
  enable_tls = false;
  enable_rbac = false;
  secret_key = "change-me-in-production";
  log_level = "INFO";
  cache_max_size = 1000;
  queue_replication_factor = 2;
  lock_lease_timeout = 30000;
  raft_election_timeout_min = 150;
  raft_election_timeout_max = 300;
  raft_heartbeat_interval = 50;
}

-- An entry of the lists. The host is the node's id.
pub record NodeAddress : Type 0 where
  pub node_id : String
  pub host : String
  pub port : ℤ

-- The loop over the entries, which leaves out those without a colon and those whose id is not kept.
-- `none` is the ValueError of a port that is no number.
unfoldable pub read_nodes : (kept : String → Bool) → List String → Option (List NodeAddress)
read_nodes kept [] = some []
read_nodes kept (entry ∷ entries) =
    let rest = read_nodes kept entries in
    elim (rsplit b':' (strip is_blank entry)) [
      | none ↦ rest
      | some (node_id, port) ↦
          if kept node_id
          then (do
            number ← parse_int port
            nodes ← rest
            some (record { node_id = node_id; host = node_id; port = number } ∷ nodes))
          else rest
    ]

unfoldable pub get_peer_nodes : NodeConfig → Option (List NodeAddress)
get_peer_nodes c = read_nodes (λ node_id. not (node_id == c.node_id)) (split b',' c.cluster_nodes)

unfoldable pub get_all_nodes : NodeConfig → Option (List NodeAddress)
get_all_nodes c = read_nodes (λ node_id. true) (split b',' c.cluster_nodes)
