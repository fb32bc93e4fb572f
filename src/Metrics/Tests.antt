-- ===== src/Metrics/Tests.antt =====
-- utils/metrics.py: a few metrics, their output, and the theorem at a histogram.
use tugas3_sinkronisasi_dist.Common.{
  ℕ, ◌≤◌, true, some, List, [], ◌∷◌, nat_eq, string_eq, lookup, insert, place, sorted, split, join,
  member, pos, negsuc, negate, minus, ◌+ℤ◌, neg, ◌≡◌, refl,
}
use tugas3_sinkronisasi_dist.Metrics.{
  Metrics, new_metrics, place_item, sorted_items, label_texts, make_key, counter_inc, gauge_set,
  gauge_inc, gauge_dec, histogram_observe, timer_exit, sum, at_most_percent, summarise, get_summary,
  node_line, empty_line, type_line, counter_line, gauge_line, count_line, sum_line, quantile_line,
  counter_lines, gauge_lines, histogram_lines, get_prometheus_output,
}
use tugas3_sinkronisasi_dist.Metrics.Quantiles.{summary_in_order}

program : Unit {0}
unfolding lookup insert place sorted split join member negate minus ◌+ℤ◌ neg place_item sorted_items
    label_texts make_key counter_inc gauge_set gauge_inc gauge_dec histogram_observe timer_exit sum
    summarise get_summary counter_lines gauge_lines histogram_lines get_prometheus_output
program = tt

abbrev collected : Metrics
collected = timer_exit "wait" 3 8 [] (
    timer_exit "wait" 5 6 [] (
      gauge_dec "depth" (pos 3) [] (
        gauge_inc "depth" (pos 2) [] (
          counter_inc "rpc" 1 (("type", "ping") ∷ ("from", "b") ∷ [])
            (counter_inc "rpc" 1 (("from", "b") ∷ ("type", "ping") ∷ []) (new_metrics "n"))))))

shown :
    get_prometheus_output collected
    ≡ node_line "n"
      ∷ empty_line
      ∷ type_line "rpc" "counter"
      ∷ counter_line "rpc{from=\"b\",type=\"ping\"}" 2
      ∷ type_line "depth" "gauge"
      ∷ gauge_line "depth" (negsuc 0)
      ∷ type_line "wait" "summary"
      ∷ count_line "wait" 2
      ∷ sum_line "wait" 6
      ∷ quantile_line "wait" 50 (some 5)
      ∷ quantile_line "wait" 95 (some 5)
      ∷ quantile_line "wait" 99 (some 5)
      ∷ []
unfolding program
shown = refl

abbrev observed : List ℕ
observed = 7 ∷ 2 ∷ 9 ∷ []

summary_in_order_example :
    let s = summarise (4 ∷ observed) in
    (a : ℕ) × (b : ℕ) × (c : ℕ) × (s.p50 ≡ some a)
    × (s.p95 ≡ some b)
    × (s.p99 ≡ some c)
    × (a ≤ b)
    × (b ≤ c)
    × (member a (4 ∷ observed) ≡ true)
    × (member b (4 ∷ observed) ≡ true)
    × (member c (4 ∷ observed) ≡ true)
    × (at_most_percent 50 (4 ∷ observed) ≡ s.p50)
    × (at_most_percent 95 (4 ∷ observed) ≡ s.p95)
summary_in_order_example = summary_in_order 4 observed
