-- ===== src/Client/Threads.antt =====
-- The work of the two loop threads: fetching toggles and sending metrics.
pub mod Fetching
pub mod Sending
pub mod Sound
pub mod Exit
pub mod Windows
pub mod InFlight
pub mod Emissions
use unleash_cpp_sdk.Base.{
  Bool, List, Option, Text, [], codes, eqb_ℤ, false, if◌then◌else◌, leb_ℤ, ltb_ℤ, none, pos, some,
  true, ℤ, ◌&&◌, ◌∷◌,
}
use unleash_cpp_sdk.Client.State.{
  Client, SdkState, persist_toggles, sdk_error, sdk_healthy, sdk_started,
}
use unleash_cpp_sdk.Config.{is_metrics_enabled, is_refresh_enabled}
use unleash_cpp_sdk.Domain.Context.{Context}
use unleash_cpp_sdk.Domain.Toggles.{ToggleSet}
use unleash_cpp_sdk.Events.{Event, emit, error, ready, update}
use unleash_cpp_sdk.Fetcher.{FetchResult, ToggleFetcher, fetch}
use unleash_cpp_sdk.Json.Library.{Library}
use unleash_cpp_sdk.Metrics.MetricsStore.{is_store_empty, reset, to_json_metrics_payload}
use unleash_cpp_sdk.Metrics.MetricSender.{MetricResult, send_body}
use unleash_cpp_sdk.Store.Flags.{replace}
use unleash_cpp_sdk.Transport.Messages.{ComResponse, HttpRequest}

error_event : Text → Text → Event
error_event message details = error (record { message = message; details = details })

mark_error : SdkState → SdkState
mark_error sdk_started = sdk_error
mark_error sdk_healthy = sdk_error
mark_error s = s

-- The end of a wait of the polling thread: whether the exit flag was set, and what the request
-- that follows meets.
pub record PollWake : Type 0 where
  pub exit : Bool
  pub client : HttpRequest → Option ComResponse

-- What one call of `sendMetrics` meets: the clock at the payload and at the reset, and the client.
pub record MetricWake : Type 0 where
  pub exit : Bool
  pub stop_ms : ℤ
  pub reset_ms : ℤ
  pub client : HttpRequest → Option ComResponse

module _ {W : Type 0} where
  emit_to : Event → Client W → Client W
  emit_to e c = record c { event_handler = emit e c.event_handler }

  -- A set that was fetched is persisted, put into the store and announced.
  take_toggles : ToggleSet → Client W → Client W
  unfolding persist_toggles emit_to
  take_toggles t c =
      let c₁ = persist_toggles t c in
      let c₂ = record c₁ { flag_store = replace (some t) c₁.flag_store; ready = true } in
      let c₃ = if c₁.ready then c₂ else emit_to ready c₂ in emit_to update c₃

  take_optional : Option ToggleSet → Client W → Client W
  unfolding take_toggles
  take_optional none c = c
  take_optional (some t) c = take_toggles t c

  -- `none` is the `std::bad_optional_access` of `error.value()` in the last branch.
  unfoldable pub handle_result : FetchResult → Client W → Option (Client W)
  unfolding emit_to error_event mark_error take_optional
  handle_result r c = elim r.error [
    | some e ↦
        let c' = emit_to (error_event (codes "Toggle fetch failed") e) c in
        some (record c' { sdk_state = mark_error c'.sdk_state })
    | none ↦
        if eqb_ℤ r.status (pos 304)
        then some c
        else if leb_ℤ (pos 200) r.status && ltb_ℤ r.status (pos 300)
        then some (take_optional r.toggles c)
        else none
  ]

  unfoldable pub handle_fetched :
      Option (ToggleFetcher × FetchResult) → Client W → Option (Client W)
  unfolding handle_result
  handle_fetched none c = none
  handle_fetched (some (f, r)) c = handle_result r (record c { toggle_fetcher = f })

  -- `none` is an exception, also of `fetch`.
  unfoldable pub single_fetch_toggles :
      Library → (HttpRequest → Option ComResponse) → Context → Client W → Option (Client W)
  unfolding handle_fetched
  single_fetch_toggles l client ctx c = handle_fetched (fetch l client ctx c.toggle_fetcher) c

  -- The loop, over the ends of its waits: it goes on with the next one, or returns once it has seen
  -- the exit flag. An exception ends it.
  polling_rounds : Library → List PollWake → Client W → Option (Client W)
  unfolding single_fetch_toggles
  polling_rounds l [] c = some c
  polling_rounds l (w ∷ ws) c =
      if w.exit
      then some c
      else elim (single_fetch_toggles l w.client c.context (record c { context_updated = false })) [
        | none ↦ none
        | some c' ↦ polling_rounds l ws c'
      ]

  -- The first request is made before the flag is tested.
  unfoldable pub feature_polling_loop :
      Library → (HttpRequest → Option ComResponse) → List PollWake → Client W → Option (Client W)
  unfolding polling_rounds
  feature_polling_loop l first ws c =
      if is_refresh_enabled c.config
      then (elim (single_fetch_toggles l first c.context c) [
        | none ↦ none
        | some c' ↦ polling_rounds l ws c'
      ])
      else some c

  -- The result is the outer `none` where `value()` of a missing payload would throw.
  unfoldable pub send_metrics :
      Library → (ℤ → Text) → MetricWake → Client W → Option (Client W × Option MetricResult)
  send_metrics l utc w c =
      if is_store_empty c.metric_store
      then some (record c { metric_store = reset w.reset_ms c.metric_store }, none)
      else elim (to_json_metrics_payload l utc w.stop_ms c.metric_store) [
        | none ↦ none
        | some body ↦
            let (s, r) = send_body w.client body c.metric_sender in
            some (
              record c { metric_sender = s; metric_store = reset w.reset_ms c.metric_store },
              some r,
            )
      ]

  report_failure : Option MetricResult → Client W → Client W
  unfolding emit_to error_event
  report_failure none c = c
  report_failure (some r) c = elim r.error [
    | none ↦ c
    | some e ↦ emit_to (error_event (codes "Metric sending failed") e) c
  ]

  -- `waitAndMaybeSend` behind its wait; the Boolean is its result.
  unfoldable pub wait_and_maybe_send :
      Library → (ℤ → Text) → MetricWake → Client W → Option (Client W × Bool)
  unfolding send_metrics report_failure
  wait_and_maybe_send l utc w c =
      if w.exit then some (c, false) else elim (send_metrics l utc w c) [
        | none ↦ none
        | some (c', r) ↦ some (report_failure r c', true)
      ]

  metric_rounds : Library → (ℤ → Text) → List MetricWake → Client W → Option (Client W)
  unfolding wait_and_maybe_send
  metric_rounds l utc [] c = some c
  metric_rounds l utc (w ∷ ws) c = elim (wait_and_maybe_send l utc w c) [
    | none ↦ none
    | some (c', true) ↦ metric_rounds l utc ws c'
    | some (c', false) ↦ some c'
  ]

  -- The initial wait and the periodic ones differ in their time-out alone.
  unfoldable pub metric_sending_loop :
      Library → (ℤ → Text) → List MetricWake → Client W → Option (Client W)
  unfolding metric_rounds
  metric_sending_loop l utc ws c =
      if is_metrics_enabled c.config then metric_rounds l utc ws c else some c
