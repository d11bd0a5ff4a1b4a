-- ===== src/Client/Threads/Sending.antt =====
-- The metrics thread.
use unleash_cpp_sdk.Base.{
  Bool-cases, Option, Text, false, inl, inr, is_empty, is_some, none, not, refl, some, true, ℤ, ◌≡◌,
}
use unleash_cpp_sdk.Client.State.{Client}
use unleash_cpp_sdk.Client.Threads.{MetricWake, send_metrics}
use unleash_cpp_sdk.Json.Encode.{encode_metrics_request_body}
use unleash_cpp_sdk.Utils.Times.{from_ms_ts_to_utc_time}
use unleash_cpp_sdk.Json.Library.{Library}
use unleash_cpp_sdk.Metrics.MetricsStore.{
  MetricsStore, is_store_empty, reset, to_json_metrics_payload,
}
use unleash_cpp_sdk.Metrics.MetricSender.{MetricResult, send_body}

pub payload_present :
    (l : Library) (utc : ℤ → Text) (now : ℤ) (s : MetricsStore)
    → is_empty s.list ≡ false
    → (body : Text) × (to_json_metrics_payload l utc now s ≡ some body)
unfolding to_json_metrics_payload
payload_present l utc now s e = (
  encode_metrics_request_body l s.list (from_ms_ts_to_utc_time utc s.start_ms)
      (from_ms_ts_to_utc_time utc now) s.app_name s.instance_id,
  rw e,
)

module _ {W : Type 0} (l : Library) (utc : ℤ → Text) where
  pub send_nothing :
      (w : MetricWake) (c : Client W)
      → is_empty c.metric_store.list ≡ true
      → send_metrics l utc w c
        ≡ some (record c { metric_store = reset w.reset_ms c.metric_store }, none)
  unfolding send_metrics is_store_empty
  send_nothing w c e = rw e

  pub send_payload :
      (w : MetricWake) (c : Client W) (body : Text)
      → is_empty c.metric_store.list ≡ false
      → to_json_metrics_payload l utc w.stop_ms c.metric_store ≡ some body
      → send_metrics l utc w c
        ≡ some (
          record c {
            metric_sender = (send_body w.client body c.metric_sender).0;
            metric_store = reset w.reset_ms c.metric_store;
          },
          some (send_body w.client body c.metric_sender).1,
        )
  unfolding send_metrics is_store_empty
  send_payload w c body e p = rw (e, p)

  -- Where the names that the body holds are UTF-8, so that the library's `dump()` does not throw,
  -- `sendMetrics` never fails by a missing payload. It sends, and so has a result, exactly if the
  -- store has an entry; and whatever comes of the request, also when it fails, the counters are
  -- dropped and the window starts anew.
  pub send_metrics_lem :
      (w : MetricWake) (c : Client W)
      → (c' : Client W) × (r : Option MetricResult) × (send_metrics l utc w c ≡ some (c', r))
        × (c'.metric_store ≡ reset w.reset_ms c.metric_store)
        × (is_some r ≡ not (is_store_empty c.metric_store))
  send_metrics_lem w c = elim (Bool-cases (is_empty c.metric_store.list)) [
    | inl e ↦ (
      record c { metric_store = reset w.reset_ms c.metric_store },
      none,
      send_nothing w c e,
      refl,
      unfold is_store_empty in rw e,
    )
    | inr e ↦
        let (body, p) = payload_present l utc w.stop_ms c.metric_store e in
        let (s, r) = send_body w.client body c.metric_sender in
        (
          record c { metric_sender = s; metric_store = reset w.reset_ms c.metric_store },
          some r,
          send_payload w c body e p,
          refl,
          unfold is_store_empty in rw e,
        )
  ]
