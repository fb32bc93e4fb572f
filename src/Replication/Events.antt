-- ===== src/Replication/Events.antt =====
-- geo/replicator.py: the life of a `Replicator` as a list of events.
use tugas3_sinkronisasi_dist.Common.{ℕ, String, List, [], ◌∷◌}
use tugas3_sinkronisasi_dist.Replication.{
  ReplicatedEntry, Replicator, write, receive, clear_completed,
}

pub data GeoEvent (V : Type 0) : Type 0 where
  written_at : (now : ℕ) (key : String) (value : V) → GeoEvent V
  -- an entry that `handle_replicate` has read from its message
  received : (entry : ReplicatedEntry V) → GeoEvent V
  cleared : GeoEvent V

module _ {V : Type 0} where
  unfoldable pub geo_step : GeoEvent V → Replicator V → Replicator V
  geo_step (written_at now key value) r = (write now key value r).0
  geo_step (received entry) r = (receive entry r).0
  geo_step cleared r = clear_completed r

  unfoldable pub run_geo : List (GeoEvent V) → Replicator V → Replicator V
  run_geo [] r = r
  run_geo (e ∷ es) r = run_geo es (geo_step e r)
