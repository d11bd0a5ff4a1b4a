-- ===== src/Metrics/MetricsStore.antt =====
-- metricStore.hpp and metricStore.cpp. Each method holds the mutex for its whole body, so a call is
-- one step; `now` is what `nowMs` returns in it.
use unleash_cpp_sdk.Base.{
  Bool, Option, Text, [], if◌then◌else◌, is_empty, none, refl, some, true, ℤ, ◌≡◌,
}
use unleash_cpp_sdk.Config.{ClientConfig}
use unleash_cpp_sdk.Json.Library.{Library}
use unleash_cpp_sdk.Json.Encode.{encode_metrics_request_body}
use unleash_cpp_sdk.Metrics.MetricList.{MetricList, Report, add}
use unleash_cpp_sdk.Utils.Times.{from_ms_ts_to_utc_time}

pub record MetricsStore : Type 0 where
  pub list : MetricList
  pub start_ms : ℤ
  pub app_name : Text
  pub instance_id : Text

unfoldable pub make_store : {W : Type 0} → ClientConfig W → ℤ → MetricsStore
make_store c now = record {
  list = [];
  start_ms = now;
  app_name = c.app_name;
  instance_id = c.instance_id;
}

unfoldable pub reset : ℤ → MetricsStore → MetricsStore
reset now s = record s { list = []; start_ms = now }

-- `addEnableMetric` and `addVariantMetric`.
unfoldable pub add_metric : Report → MetricsStore → MetricsStore
add_metric r s = record s { list = add r s.list }

unfoldable pub is_store_empty : MetricsStore → Bool
is_store_empty s = is_empty s.list

unfoldable pub snapshot_metrics : MetricsStore → MetricList
snapshot_metrics s = s.list

-- `utc` prints the seconds of a time stamp.
unfoldable pub to_json_metrics_payload : Library → (ℤ → Text) → ℤ → MetricsStore → Option Text
to_json_metrics_payload l utc now s =
    if is_empty s.list
    then none
    else some (
        encode_metrics_request_body l s.list (from_ms_ts_to_utc_time utc s.start_ms)
          (from_ms_ts_to_utc_time utc now) s.app_name s.instance_id)

-- `startTimestampMs`
unfoldable pub start_timestamp_ms : MetricsStore → ℤ
start_timestamp_ms s = s.start_ms

-- A reset starts the window at the time that it reads, with no counters.
pub reset-window :
    (now : ℤ) (s : MetricsStore)
    → (start_timestamp_ms (reset now s) ≡ now)
      × (is_store_empty (reset now s) ≡ true)
      × (snapshot_metrics (reset now s) ≡ [])
unfolding start_timestamp_ms reset is_store_empty snapshot_metrics
reset-window now s = (refl, refl, refl)
