-- ===== src/Metrics/MetricList.antt =====
-- metricList.hpp, metricList.cpp and the list that metricStore.cpp keeps: one entry for each toggle
-- that was evaluated.
use unleash_cpp_sdk.Base.{Bool, Dict, List, Text, [], assign, lookup, none, some, ◌∷◌}
use unleash_cpp_sdk.Metrics.Counters.{
  MetricToggle, make_enable, make_variant_toggle, update_enable_metric, update_variant_metric,
}
pub mod Counts

abbrev pub MetricList : Type 0
MetricList = Dict MetricToggle

unfoldable pub add_enable_metric_data : Text → Bool → MetricList → MetricList
add_enable_metric_data name is_yes l = elim (lookup name l) [
  | none ↦ assign name (make_enable name is_yes) l
  | some t ↦ assign name (update_enable_metric is_yes t) l
]

unfoldable pub add_variant_metric_data : Text → Bool → Text → MetricList → MetricList
add_variant_metric_data name is_yes v l = elim (lookup name l) [
  | none ↦ assign name (make_variant_toggle name is_yes v) l
  | some t ↦ assign name (update_variant_metric is_yes v t) l
]

-- What an evaluation reports: `addEnableMetric` or `addVariantMetric` with their arguments.
pub data Report : Type 0 where
  enable : Text → Bool → Report
  variant : Text → Bool → Text → Report

unfoldable pub add : Report → MetricList → MetricList
add (enable name is_yes) l = add_enable_metric_data name is_yes l
add (variant name is_yes v) l = add_variant_metric_data name is_yes v l

unfoldable pub add_all : List Report → MetricList → MetricList
add_all [] l = l
add_all (r ∷ rs) l = add_all rs (add r l)
