-- ===== src/Routing/Regions.antt =====
-- geo/region_manager.py: the table of all regions against the lists of each.
use tugas3_sinkronisasi_dist.Common.{
  String, List, [], ◌∷◌, ◌++◌, if◌then◌else◌, or_else, string_eq, ◌==◌, Dict, lookup, lookup-insert,
  ◌≡◌, refl, sym, ap, ◌∙◌, Bool-cases, inl, inr, beq_eq, append_assoc, append-nil,
}
use tugas3_sinkronisasi_dist.Routing.{RegionManager, nodes_in, get_nodes_in_region}
use tugas3_sinkronisasi_dist.Routing.Tables.{add_to_region, group_regions, get_all_regions}

add_to_region_lem :
    (node_id region r : String) (d : Dict String (List String))
    → or_else (lookup region (add_to_region node_id r d)) []
      ≡ or_else (lookup region d) [] ++ (if r == region then node_id ∷ [] else [])
add_to_region_lem node_id region r d =
    let l = or_else (lookup r d) [] ++ node_id ∷ [] in
    elim (Bool-cases (r == region)) [
      | inl same ↦
          let e : r ≡ region = beq_eq r region same in
          rw (lookup-insert r region l d, same)
            (ap (λ r. or_else (lookup r d) [] ++ node_id ∷ []) e)
      | inr other ↦
          rw (lookup-insert r region l d, other) (sym (append-nil (or_else (lookup region d) [])))
    ]

nodes_in-cons :
    (region node_id r : String) (d : Dict String String)
    → (if r == region then node_id ∷ [] else []) ++ nodes_in region d
      ≡ nodes_in region ((node_id, r) ∷ d)
unfolding nodes_in
nodes_in-cons region node_id r d = elim (Bool-cases (r == region)) [
  | inl same ↦ rw same refl
  | inr other ↦ rw other refl
]

group_regions_lem :
    (region : String) (d : Dict String String) (regions : Dict String (List String))
    → or_else (lookup region (group_regions d regions)) []
      ≡ or_else (lookup region regions) [] ++ nodes_in region d
unfolding group_regions
group_regions_lem region [] regions =
    unfold nodes_in in sym (append-nil (or_else (lookup region regions) []))
group_regions_lem region ((node_id, r) ∷ d) regions =
    let own : List String = if r == region then node_id ∷ [] else [] in
    group_regions_lem region d (add_to_region node_id r regions)
    ∙ ap (λ l. l ++ nodes_in region d) (add_to_region_lem node_id region r regions)
    ∙ append_assoc (or_else (lookup region regions) []) own (nodes_in region d)
    ∙ ap (λ l. or_else (lookup region regions) [] ++ l) (nodes_in-cons region node_id r d)

-- The nodes of a region in get_all_regions are those of get_nodes_in_region, in the same order.
pub get_all_regions_lem :
    (region : String) (g : RegionManager)
    → or_else (lookup region (get_all_regions g)) [] ≡ get_nodes_in_region region g
unfolding get_all_regions lookup
get_all_regions_lem region g = group_regions_lem region g.node_regions []
