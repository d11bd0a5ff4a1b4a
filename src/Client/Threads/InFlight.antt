-- ===== src/Client/Threads/InFlight.antt =====
-- What other threads ask the client while `sendMetrics` is between its payload and its reset, when it
-- waits for the answer of the server and holds no mutex.
use unleash_cpp_sdk.Base.{
  Bool-cases, List, Option, Text, false, if◌then◌else◌, inl, inr, is_empty, none, some, true, ℤ,
  ◌≡◌,
}
use unleash_cpp_sdk.Client.Evaluate.Questions.{Question, ask_all}
use unleash_cpp_sdk.Client.Evaluate.Questions.Effects.{ask_all-others, reset-ask_all}
use unleash_cpp_sdk.Client.State.{Client}
use unleash_cpp_sdk.Client.Threads.{MetricWake, send_metrics}
use unleash_cpp_sdk.Client.Threads.Sending.{payload_present, send_nothing, send_payload}
use unleash_cpp_sdk.Json.Library.{Library}
use unleash_cpp_sdk.Metrics.MetricsStore.{is_store_empty, reset, to_json_metrics_payload}
use unleash_cpp_sdk.Metrics.MetricSender.{MetricResult, send_body}

module _ {W : Type 0} (l : Library) (utc : ℤ → Text) where
  -- `sendMetrics` with these questions in between: behind the test of an empty store, or during the
  -- request.
  unfoldable pub send_metrics_while :
      MetricWake → List Question → Client W → Option (Client W × Option MetricResult)
  send_metrics_while w late c =
      if is_store_empty c.metric_store
      then (let c' = ask_all late c in
          some (record c' { metric_store = reset w.reset_ms c'.metric_store }, none))
      else elim (to_json_metrics_payload l utc w.stop_ms c.metric_store) [
        | none ↦ none
        | some body ↦
            let (s, r) = send_body w.client body c.metric_sender in
            let c' = ask_all late (record c { metric_sender = s }) in
            some (record c' { metric_store = reset w.reset_ms c'.metric_store }, some r)
      ]

  abbrev asked_then_reset : MetricWake → List Question → Client W → Client W
  asked_then_reset w late c = record (ask_all late c) {
    metric_store = reset w.reset_ms (ask_all late c).metric_store;
  }

  while_nothing :
      (w : MetricWake) (late : List Question) (c : Client W)
      → is_empty c.metric_store.list ≡ true
      → send_metrics_while w late c ≡ some (asked_then_reset w late c, none)
  unfolding send_metrics_while is_store_empty
  while_nothing w late c e = rw e

  while_payload :
      (w : MetricWake) (late : List Question) (c : Client W) (body : Text)
      → is_empty c.metric_store.list ≡ false
      → to_json_metrics_payload l utc w.stop_ms c.metric_store ≡ some body
      → send_metrics_while w late c
        ≡ some (
          asked_then_reset w late
              (record c { metric_sender = (send_body w.client body c.metric_sender).0 }),
          some (send_body w.client body c.metric_sender).1,
        )
  unfolding send_metrics_while is_store_empty
  while_payload w late c body e p = rw (e, p)

  -- Where the names that the body holds are UTF-8, so that the library's `dump()` does not throw: the
  -- questions that a ready client is asked while its metrics are on their way are in no report: the
  -- call sends what it would send without them, has the same result, and leaves the same store.
  pub in_flight_lost :
      (w : MetricWake) (late : List Question) (c : Client W)
      → c.ready ≡ true
      → (c' c'' : Client W) × (r : Option MetricResult) × (send_metrics_while w late c
          ≡ some (c', r))
        × (send_metrics l utc w c ≡ some (c'', r))
        × (c'.metric_store ≡ c''.metric_store)
        × (c'.metric_sender ≡ c''.metric_sender)
  in_flight_lost w late c ok = elim (Bool-cases (is_empty c.metric_store.list)) [
    | inl e ↦ (
      _,
      _,
      none,
      while_nothing w late c e,
      send_nothing l utc w c e,
      reset-ask_all w.reset_ms late c ok,
      (ask_all-others late c ok).0,
    )
    | inr e ↦
        let (body, p) = payload_present l utc w.stop_ms c.metric_store e in
        let d = record c { metric_sender = (send_body w.client body c.metric_sender).0 } in
        (
          _,
          _,
          _,
          while_payload w late c body e p,
          send_payload l utc w c body e p,
          reset-ask_all w.reset_ms late d ok,
          (ask_all-others late d ok).0,
        )
  ]
