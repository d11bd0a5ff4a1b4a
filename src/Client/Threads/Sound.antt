-- ===== src/Client/Threads/Sound.antt =====
-- The two loop threads keep the flags of the client together.
use unleash_cpp_sdk.Client.State.{Client, SdkState, persist_toggles}
use unleash_cpp_sdk.Client.Threads.{
  MetricWake, emit_to, handle_fetched, handle_result, report_failure, send_metrics,
  single_fetch_toggles, take_optional, take_toggles, wait_and_maybe_send,
}
use unleash_cpp_sdk.Json.Library.{Library}
use unleash_cpp_sdk.Transport.Messages.{ComResponse, HttpRequest}
use unleash_cpp_sdk.Domain.Context.{Context}
use unleash_cpp_sdk.Base.{
  Bool, Bool-cases, Option, Option-cases, Text, arith, eqb_ℤ, false, if◌then◌else◌, inl, inr, leb_ℤ,
  ltb_ℤ, none, pos, some, true, ℤ, ◌&&◌, ◌∙◌,
}
use unleash_cpp_sdk.Fetcher.{fetch}
use unleash_cpp_sdk.Client.State.Sound.{IsSound, emit-started}
use unleash_cpp_sdk.Domain.Toggles.{ToggleSet}
use unleash_cpp_sdk.Client.Threads.Fetching.{result_with}
use unleash_cpp_sdk.Metrics.MetricsStore.{MetricsStore, is_store_empty, to_json_metrics_payload}
use unleash_cpp_sdk.Events.{Event, emit, ready, update}
use unleash_cpp_sdk.Metrics.MetricSender.{MetricResult, MetricSender}
use unleash_cpp_sdk.Store.Flags.{is_ready, replace}

module _ {W : Type 0} where
  abbrev pub or_same : Option (Client W) → Client W → Client W
  or_same none c = c
  or_same (some c') c = c'

  abbrev pub sent_or_same : Option (Client W × Bool) → Client W → Client W
  sent_or_same none c = c
  sent_or_same (some (c', b)) c = c'

  emit_to-IsSound : (e : Event) (c : Client W) → IsSound c → IsSound (emit_to e c)
  unfolding emit_to
  emit_to-IsSound e c s = record {
    loops = s.loops;
    handler = emit-started e c.event_handler ∙ s.handler;
    exits = s.exits;
    snapshot = s.snapshot;
  }

  take_toggles-IsSound : (t : ToggleSet) (c : Client W) → IsSound c → IsSound (take_toggles t c)
  unfolding take_toggles persist_toggles emit_to replace is_ready
  take_toggles-IsSound t c s = record {
    loops = ground (arith, s.loops);
    handler = ground (
      arith,
      s.handler,
      emit-started ready c.event_handler,
      emit-started update c.event_handler,
      emit-started update (emit ready c.event_handler),
    );
    exits = ground (arith, s.exits);
    snapshot = ground (arith, s.snapshot);
  }

  branches-IsSound :
      (a b : Bool) (c c' : Client W)
      → IsSound c
      → IsSound c'
      → IsSound (or_same (if a then some c else if b then some c' else none) c)
  branches-IsSound true b c c' s s' = s
  branches-IsSound false true c c' s s' = s'
  branches-IsSound false false c c' s s' = s

  take_optional-IsSound :
      (t : Option ToggleSet) (c : Client W) → IsSound c → IsSound (take_optional t c)
  unfolding take_optional
  take_optional-IsSound none c s = s
  take_optional-IsSound (some t) c s = take_toggles-IsSound t c s

  -- The client after a result that has an error.
  failed-IsSound :
      (state : SdkState) (c : Client W) → IsSound c → IsSound (record c { sdk_state = state })
  failed-IsSound state c s = record {
    loops = s.loops;
    handler = s.handler;
    exits = s.exits;
    snapshot = s.snapshot;
  }

  handle_result-IsSound :
      (s : ℤ) (t : Option ToggleSet) (e : Option Text) (c : Client W)
      → IsSound c
      → IsSound (or_same (handle_result (result_with s t e) c) c)
  unfolding handle_result
  handle_result-IsSound s t (some e) c k = failed-IsSound _ _ (emit_to-IsSound _ c k)
  handle_result-IsSound s t none c k =
      branches-IsSound (eqb_ℤ s (pos 304)) (leb_ℤ (pos 200) s && ltb_ℤ s (pos 300)) c
        (take_optional t c) k (take_optional-IsSound t c k)

  report_failure-IsSound :
      (r : Option MetricResult) (c : Client W) → IsSound c → IsSound (report_failure r c)
  unfolding report_failure
  report_failure-IsSound none c s = s
  report_failure-IsSound (some r) c s = elim (Option-cases r.error) [
    | inl e ↦ rw e s
    | inr (m, e) ↦ rw e (emit_to-IsSound _ c s)
  ]

  fetcher-IsSound :
      (o : Option (Client W)) (c d : Client W)
      → IsSound c
      → IsSound (or_same o d)
      → IsSound (or_same o c)
  fetcher-IsSound none c d s k = s
  fetcher-IsSound (some c') c d s k = k

  pub single_fetch_toggles-IsSound :
      (l : Library) (client : HttpRequest → Option ComResponse) (ctx : Context) (c : Client W)
      → IsSound c
      → IsSound (or_same (single_fetch_toggles l client ctx c) c)
  single_fetch_toggles-IsSound l client ctx c s =
      elim (Option-cases (fetch l client ctx c.toggle_fetcher)) [
        | inl e ↦ unfold single_fetch_toggles in rw e (unfold handle_fetched in s)
        | inr ((f, r), e) ↦
            let d = record c { toggle_fetcher = f } in
            unfold single_fetch_toggles in
            rw e (
              unfold handle_fetched in
              fetcher-IsSound (handle_result r d) c d s (
                handle_result-IsSound r.status r.toggles r.error d (record {
                  loops = s.loops;
                  handler = s.handler;
                  exits = s.exits;
                  snapshot = s.snapshot;
                })))
      ]

  -- A change of the metrics alone.
  metrics-IsSound :
      (sender : MetricSender) (store : MetricsStore) (c : Client W)
      → IsSound c
      → IsSound (record c { metric_sender = sender; metric_store = store })
  metrics-IsSound sender store c s = record {
    loops = s.loops;
    handler = s.handler;
    exits = s.exits;
    snapshot = s.snapshot;
  }

  abbrev AllSound : {B : Type 0} → Option (Client W × B) → Type 0
  AllSound none = Unit {0}
  AllSound (some (c, b)) = IsSound c

  send_metrics-AllSound :
      (l : Library) (utc : ℤ → Text) (w : MetricWake) (c : Client W)
      → IsSound c
      → AllSound (send_metrics l utc w c)
  unfolding send_metrics
  send_metrics-AllSound l utc w c s = elim (Bool-cases (is_store_empty c.metric_store)) [
    | inl e ↦ rw e (metrics-IsSound _ _ c s)
    | inr e ↦ rw e (elim (Option-cases (to_json_metrics_payload l utc w.stop_ms c.metric_store)) [
      | inl f ↦ rw f tt
      | inr (body, f) ↦ rw f (metrics-IsSound _ _ c s)
    ])
  ]

  reported-IsSound :
      (exit : Bool) (o : Option (Client W × Option MetricResult)) (c : Client W)
      → IsSound c
      → AllSound o
      → IsSound (
          sent_or_same
            (if exit
              then some (c, false)
              else elim o [ none ↦ none | some (c', r) ↦ some (report_failure r c', true) ])
            c)
  reported-IsSound true o c s a = s
  reported-IsSound false none c s a = s
  reported-IsSound false (some (c', r)) c s a = report_failure-IsSound r c' a

  pub wait_and_maybe_send-IsSound :
      (l : Library) (utc : ℤ → Text) (w : MetricWake) (c : Client W)
      → IsSound c
      → IsSound (sent_or_same (wait_and_maybe_send l utc w c) c)
  unfolding wait_and_maybe_send
  wait_and_maybe_send-IsSound l utc w c s =
      reported-IsSound w.exit (send_metrics l utc w c) c s (send_metrics-AllSound l utc w c s)
