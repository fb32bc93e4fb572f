-- ===== src/Routing/Nearest.antt =====
-- geo/latency_router.py: `get_nearest_node` finds a candidate of least latency.
use tugas3_sinkronisasi_dist.Common.{
  ℕ, suc, ◌*◌, ◌≤◌, String, true, false, Option, none, some, List, [], ◌∷◌, All, get_elem?, or_else,
  string_eq, ◌==◌, member, lookup, ◌≡◌, refl, sym, ap, arith, Bool-cases, inl, inr, ◌⊎◌, subst,
}
use native.Mathlib.Nat.{mul-le-mul_right, le_of_mul-le-mul_right}
use tugas3_sinkronisasi_dist.Routing.{
  Average, get_avg_latency, LatencyRouter, Candidate, improves, nearest_of, get_nearest_node,
  get_region, simulated, measured,
}

abbrev pub NoMore : Average → Average → Type 0
NoMore a b = a.total * b.samples ≤ b.total * a.samples

pub NoMore-trans : (a b c : Average) → 1 ≤ b.samples → NoMore a b → NoMore b c → NoMore a c
NoMore-trans a b c pos ab bc =
    let first = mul-le-mul_right c.samples ab in
    let second = mul-le-mul_right a.samples bc in
    le_of_mul-le-mul_right {k = b.samples} (grind (arith, first, second)) (omega arith)

simulated-samples : (own : String) (o : Option String) → 1 ≤ (simulated own o).samples
simulated-samples own none = omega arith
simulated-samples own (some region) = elim (Bool-cases (region == "")) [
  | inl no_region ↦ rw no_region (omega arith)
  | inr there ↦ rw there (omega arith)
]

measured-samples : (ss : List ℕ) (a : Average) → 1 ≤ a.samples → 1 ≤ (measured ss a).samples
measured-samples [] a h = h
measured-samples (s ∷ ss) a h = omega arith

-- Every average has a sample.
pub has_samples : (node_id : String) (r : LatencyRouter) → 1 ≤ (get_avg_latency node_id r).samples
unfolding get_avg_latency
has_samples node_id r =
    measured-samples (or_else (lookup node_id r.measured_latencies) [])
      (simulated r.region_manager.region (get_region node_id r.region_manager))
      (simulated-samples r.region_manager.region (get_region node_id r.region_manager))

module _ (r : LatencyRouter) (exclude : List String) where
  abbrev pub NotFarther : Candidate → Candidate → Type 0
  NotFarther b c = NoMore (get_avg_latency b.node_id r) (get_avg_latency c.node_id r)

  -- One of the candidates that are not excluded.
  abbrev pub IsAllowed : Candidate → List Candidate → Type 0
  IsAllowed b cs = (i : ℕ) × (get_elem? cs i ≡ some b) × (member b.node_id exclude ≡ false)

  abbrev pub NoneNearer : Candidate → List Candidate → Type 0
  NoneNearer b cs = All (λ c. member c.node_id exclude ≡ false → NotFarther b c) cs

  IsAllowed-cons : (b c : Candidate) (cs : List Candidate) → IsAllowed b cs → IsAllowed b (c ∷ cs)
  IsAllowed-cons b c cs (i, at, free) = (suc i, at, free)

  nearest_of_best :
      (b : Candidate) (cs : List Candidate)
      → (b' : Candidate) × (nearest_of r exclude cs (some b) ≡ some b')
        × NotFarther b' b
        × NoneNearer b' cs
        × ((b' ≡ b) ⊎ IsAllowed b' cs)
  unfolding nearest_of
  nearest_of_best b [] = (b, refl, omega arith, tt, inl refl)
  nearest_of_best b (c ∷ cs) = elim (Bool-cases (member c.node_id exclude)) [
    | inl out ↦
        let (b', got, le, rest, from) = nearest_of_best b cs in
        (
          b',
          rw out got,
          le,
          ((λ free. absurd (ground (arith, out, free))), rest),
          elim from [ inl e ↦ inl e | inr i ↦ inr (IsAllowed-cons b' c cs i) ],
        )
    | inr free ↦ elim (Bool-cases (improves r c (some b))) [
      | inl nearer ↦
          let (b', got, le, rest, from) = nearest_of_best c cs in
          (
            b',
            rw (free, nearer) got,
            NoMore-trans (get_avg_latency b'.node_id r) (get_avg_latency c.node_id r)
                (get_avg_latency b.node_id r) (has_samples c.node_id r) le (ground (arith, nearer)),
            ((λ f. le), rest),
            inr (elim from [
              | inl e ↦
                  (0, ap some (sym e), subst (λ x. member x.node_id exclude ≡ false) (sym e) free)
              | inr i ↦ IsAllowed-cons b' c cs i
            ]),
          )
      | inr farther ↦
          let (b', got, le, rest, from) = nearest_of_best b cs in
          (
            b',
            rw (free, farther) got,
            le,
            (
              (λ f.
                  NoMore-trans (get_avg_latency b'.node_id r) (get_avg_latency b.node_id r)
                    (get_avg_latency c.node_id r) (has_samples b.node_id r) le
                    (ground (arith, farther))),
              rest,
            ),
            elim from [ inl e ↦ inl e | inr i ↦ inr (IsAllowed-cons b' c cs i) ],
          )
    ]
  ]

  -- The nearest node is one of the candidates that are not excluded, and none of these has a lower
  -- average latency; there is none exactly where all are excluded.
  pub get_nearest_node_lem :
      (cs : List Candidate)
      → ((get_nearest_node cs exclude r ≡ none) × All (λ c. member c.node_id exclude ≡ true) cs)
        ⊎ ((b : Candidate) × (get_nearest_node cs exclude r ≡ some b)
            × IsAllowed b cs
            × NoneNearer b cs)
  unfolding get_nearest_node nearest_of
  get_nearest_node_lem [] = inl (refl, tt)
  get_nearest_node_lem (c ∷ cs) = elim (Bool-cases (member c.node_id exclude)) [
    | inl out ↦ elim (get_nearest_node_lem cs) [
      | inl (nothing, all) ↦ inl (rw out nothing, (out, all))
      | inr (b, got, allowed, rest) ↦ inr (
        b,
        rw out got,
        IsAllowed-cons b c cs allowed,
        ((λ free. absurd (ground (arith, out, free))), rest),
      )
    ]
    | inr free ↦
        let (b, got, le, rest, from) = nearest_of_best c cs in
        inr (
          b,
          rw free got,
          elim from [
            | inl e ↦
                (0, ap some (sym e), subst (λ x. member x.node_id exclude ≡ false) (sym e) free)
            | inr i ↦ IsAllowed-cons b c cs i
          ],
          ((λ f. le), rest),
        )
  ]
