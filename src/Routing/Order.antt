-- ===== src/Routing/Order.antt =====
-- geo/latency_router.py: the order of `get_local_first`.
use tugas3_sinkronisasi_dist.Common.{
  false, List, [], ◌∷◌, string_eq, All, ◌≡◌, or_else, lookup, ◌⊎◌,
}
use mathlib.Core.List.{Permᴰ}
use mathlib.Core.List.Permᴰ
use tugas3_sinkronisasi_dist.Routing.{LatencyRouter, get_avg_latency, Candidate}
use tugas3_sinkronisasi_dist.Routing.Nearest.{NoMore}
use tugas3_sinkronisasi_dist.Routing.Tables.{comes_before}

module _ (r : LatencyRouter) where
  abbrev IsPlaced : List Candidate → Type 0
  IsPlaced [] = Unit
  IsPlaced (c ∷ cs) = All (λ d. comes_before r d c ≡ false) cs × IsPlaced cs

  -- The region that the candidate is registered with, or the empty text, is the router's own.
  abbrev pub IsOwn : Candidate → Type 0
  IsOwn c = or_else (lookup c.node_id r.region_manager.node_regions) "" ≡ r.region_manager.region

  -- `c` is of the own region and `d` is not, or both or neither are, and the latency of `c` is no more.
  abbrev pub InFront : Candidate → Candidate → Type 0
  InFront c d =
      (IsOwn c × ¬ IsOwn d)
      ⊎ (((IsOwn c × IsOwn d) ⊎ ((¬ IsOwn c) × (¬ IsOwn d)))
          × NoMore (get_avg_latency c.node_id r) (get_avg_latency d.node_id r))

  abbrev pub InOrder : List Candidate → Type 0
  InOrder [] = Unit
  InOrder (c ∷ cs) = All (InFront c) cs × InOrder cs
