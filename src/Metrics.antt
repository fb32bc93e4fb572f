-- ===== src/Metrics.antt =====
-- utils/metrics.py: `MetricsCollector`. Counters and observations are whole numbers and gauges are
-- integers, in the unit that their caller counts; the lines of the text output are values, before
-- their numbers are printed.
pub mod Quantiles
pub mod Tests
use text.Mathlib.Text.{is_le}
use Prim.Native.String.{compare}
use tugas3_sinkronisasi_dist.Common.{
  ℕ, ◌+◌, ◌-◌, ◌*◌, ◌/◌, min, String, Bool, true, false, Option, none, some, List, [], ◌∷◌, ◌++◌,
  length, get_elem?, if◌then◌else◌, or_else, string_eq, ◌==◌, Dict, lookup, insert, sorted, split,
  join, ◌⧺◌, ℤ, pos, ◌+ℤ◌, neg,
}

pub record Metrics : Type 0 where
  pub node_id : String
  pub counters : Dict String ℕ
  pub gauges : Dict String ℤ
  pub histograms : Dict String (List ℕ)

abbrev pub new_metrics : (node_id : String) → Metrics
new_metrics node_id = record { node_id = node_id; counters = []; gauges = []; histograms = [] }

-- `sorted(d.items())`, where no key stands twice
module _ {A : Type 0} where
  unfoldable pub place_item : String × A → Dict String A → Dict String A
  place_item item [] = item ∷ []
  place_item item (first ∷ items) =
      let rest = place_item item items in
      if is_le (compare item.0 first.0) then item ∷ first ∷ items else first ∷ rest

  unfoldable pub sorted_items : Dict String A → Dict String A
  sorted_items [] = []
  sorted_items (item ∷ items) = place_item item (sorted_items items)

unfoldable pub label_texts : Dict String String → List String
label_texts [] = []
label_texts ((k, v) ∷ labels) = (k ⧺ ("=\"" ⧺ (v ⧺ "\""))) ∷ label_texts labels

-- `_make_key`; no labels are the empty dictionary
unfoldable pub make_key : (name : String) → Dict String String → String
make_key name [] = name
make_key name (label ∷ labels) =
    name ⧺ ("{" ⧺ (join "," (label_texts (sorted_items (label ∷ labels))) ⧺ "}"))

module _ (name : String) where
  unfoldable pub counter_inc : (value : ℕ) (labels : Dict String String) → Metrics → Metrics
  counter_inc value labels m =
      let key = make_key name labels in
      record m { counters = insert key (or_else (lookup key m.counters) 0 + value) m.counters }

  unfoldable pub gauge_set : (value : ℤ) (labels : Dict String String) → Metrics → Metrics
  gauge_set value labels m = record m { gauges = insert (make_key name labels) value m.gauges }

  unfoldable pub gauge_inc : (value : ℤ) (labels : Dict String String) → Metrics → Metrics
  gauge_inc value labels m =
      let key = make_key name labels in
      record m { gauges = insert key (or_else (lookup key m.gauges) (pos 0) +ℤ value) m.gauges }

  unfoldable pub gauge_dec : (value : ℤ) (labels : Dict String String) → Metrics → Metrics
  gauge_dec value labels m =
      let key = make_key name labels in
      record m { gauges = insert key (or_else (lookup key m.gauges) (pos 0) +ℤ neg value) m.gauges }

  unfoldable pub histogram_observe : (value : ℕ) (labels : Dict String String) → Metrics → Metrics
  histogram_observe value labels m =
      let key = make_key name labels in
      record m {
        histograms = insert key (or_else (lookup key m.histograms) [] ++ value ∷ []) m.histograms;
      }

  -- A timer that was entered at `start` is left at `now`.
  unfoldable pub timer_exit : (start now : ℕ) (labels : Dict String String) → Metrics → Metrics
  timer_exit start now labels m = histogram_observe (now - start) labels m

unfoldable pub sum : List ℕ → ℕ
sum [] = 0
sum (x ∷ xs) = x + sum xs

-- `sorted_obs[int(len * q)]` for q percent, cut to the last index in the text output and for p99.
-- `none` is the IndexError.
abbrev pub at_percent : (percent : ℕ) → List ℕ → Option ℕ
at_percent percent obs = get_elem? (sorted obs) (length obs * percent / 100)

abbrev pub at_most_percent : (percent : ℕ) → List ℕ → Option ℕ
at_most_percent percent obs =
    get_elem? (sorted obs) (min (length obs * percent / 100) (length obs - 1))

pub record Summary : Type 0 where
  pub observed : ℕ
  pub total : ℕ
  pub p50 : Option ℕ
  pub p95 : Option ℕ
  pub p99 : Option ℕ

unfoldable pub summarise : List ℕ → Summary
summarise obs = record {
  observed = length obs;
  total = sum obs;
  p50 = get_elem? (sorted obs) (length obs / 2);
  p95 = at_percent 95 obs;
  p99 = at_most_percent 99 obs;
}

-- The histograms of `get_summary`; its counters and gauges are those of the collector.
unfoldable pub get_summary : Dict String (List ℕ) → Dict String Summary
get_summary [] = []
get_summary ((key, []) ∷ histograms) = get_summary histograms
get_summary ((key, o ∷ obs) ∷ histograms) = (key, summarise (o ∷ obs)) ∷ get_summary histograms

pub data MetricLine : Type 0 where
  node_line : (node_id : String) → MetricLine
  empty_line : MetricLine
  type_line : (base_name kind : String) → MetricLine
  counter_line : (key : String) (value : ℕ) → MetricLine
  gauge_line : (key : String) (value : ℤ) → MetricLine
  count_line sum_line : (key : String) (value : ℕ) → MetricLine
  quantile_line : (key : String) (percent : ℕ) (value : Option ℕ) → MetricLine

-- `key.split("{")[0]`
abbrev pub base_name : String → String
base_name key = elim (split b'{' key) [ [] ↦ "" | name ∷ parts ↦ name ]

unfoldable pub counter_lines : Dict String ℕ → List MetricLine
counter_lines [] = []
counter_lines ((key, value) ∷ d) =
    type_line (base_name key) "counter" ∷ counter_line key value ∷ counter_lines d

unfoldable pub gauge_lines : Dict String ℤ → List MetricLine
gauge_lines [] = []
gauge_lines ((key, value) ∷ d) =
    type_line (base_name key) "gauge" ∷ gauge_line key value ∷ gauge_lines d

abbrev pub observation_lines : (key : String) → List ℕ → List MetricLine
observation_lines key [] = []
observation_lines key (o ∷ obs) =
    count_line key (length (o ∷ obs))
    ∷ sum_line key (sum (o ∷ obs))
    ∷ quantile_line key 50 (at_most_percent 50 (o ∷ obs))
    ∷ quantile_line key 95 (at_most_percent 95 (o ∷ obs))
    ∷ quantile_line key 99 (at_most_percent 99 (o ∷ obs))
    ∷ []

unfoldable pub histogram_lines : Dict String (List ℕ) → List MetricLine
histogram_lines [] = []
histogram_lines ((key, obs) ∷ d) =
    type_line (base_name key) "summary" ∷ (observation_lines key obs ++ histogram_lines d)

unfoldable pub get_prometheus_output : Metrics → List MetricLine
get_prometheus_output m =
    node_line m.node_id
    ∷ empty_line
    ∷ (counter_lines (sorted_items m.counters)
        ++ (gauge_lines (sorted_items m.gauges) ++ histogram_lines (sorted_items m.histograms)))
