-- ===== src/Client/Threads/Emissions.antt =====
-- What the loop threads do to the event handler: they emit, and no init event.
use unleash_cpp_sdk.Base.{
  Bool, Bool-cases, Option, Option-cases, Text, eqb_ℤ, false, if◌then◌else◌, inl, inr, leb_ℤ, ltb_ℤ,
  none, pos, some, true, ℤ, ◌&&◌,
}
use unleash_cpp_sdk.Client.State.{Client, persist_toggles}
use unleash_cpp_sdk.Client.Threads.{
  MetricWake, emit_to, error_event, handle_fetched, handle_result, report_failure, send_metrics,
  single_fetch_toggles, take_optional, take_toggles, wait_and_maybe_send,
}
use unleash_cpp_sdk.Client.Threads.Fetching.{result_with}
use unleash_cpp_sdk.Client.Threads.Sound.{or_same, sent_or_same}
use unleash_cpp_sdk.Domain.Context.{Context}
use unleash_cpp_sdk.Domain.Toggles.{ToggleSet}
use unleash_cpp_sdk.Events.{
  ClientError, ClientImpression, Handler, emit, error, impression, ready, update,
}
use unleash_cpp_sdk.Fetcher.{fetch}
use unleash_cpp_sdk.Json.Library.{Library}
use unleash_cpp_sdk.Metrics.MetricSender.{MetricResult}
use unleash_cpp_sdk.Metrics.MetricsStore.{is_store_empty, to_json_metrics_payload}
use unleash_cpp_sdk.Transport.Messages.{ComResponse, HttpRequest}

-- A property of handlers that no emission but that of the init event can break.
pub record IsKept (Q : Handler → Type 0) : Type 0 where
  pub at_ready : (h : Handler) → Q h → Q (emit ready h)
  pub at_update : (h : Handler) → Q h → Q (emit update h)
  pub at_error : (e : ClientError) (h : Handler) → Q h → Q (emit (error e) h)
  pub at_impression : (e : ClientImpression) (h : Handler) → Q h → Q (emit (impression e) h)

module _ {W : Type 0} (Q : Handler → Type 0) (k : IsKept Q) where
  take_toggles-kept :
      (t : ToggleSet) (c : Client W) → Q c.event_handler → Q (take_toggles t c).event_handler
  unfolding take_toggles persist_toggles emit_to
  take_toggles-kept t c q = elim (Bool-cases c.ready) [
    | inl r ↦ rw r (k.at_update c.event_handler q)
    | inr r ↦ rw r (k.at_update (emit ready c.event_handler) (k.at_ready c.event_handler q))
  ]

  take_optional-kept :
      (t : Option ToggleSet) (c : Client W)
      → Q c.event_handler
      → Q (take_optional t c).event_handler
  unfolding take_optional
  take_optional-kept none c q = q
  take_optional-kept (some t) c q = take_toggles-kept t c q

  branches-kept :
      (a b : Bool) (c c' : Client W)
      → Q c.event_handler
      → Q c'.event_handler
      → Q (or_same (if a then some c else if b then some c' else none) c).event_handler
  branches-kept true b c c' q q' = q
  branches-kept false true c c' q q' = q'
  branches-kept false false c c' q q' = q

  handle_result-kept :
      (s : ℤ) (t : Option ToggleSet) (e : Option Text) (c : Client W)
      → Q c.event_handler
      → Q (or_same (handle_result (result_with s t e) c) c).event_handler
  unfolding handle_result emit_to error_event
  handle_result-kept s t (some e) c q = k.at_error _ c.event_handler q
  handle_result-kept s t none c q =
      branches-kept (eqb_ℤ s (pos 304)) (leb_ℤ (pos 200) s && ltb_ℤ s (pos 300)) c
        (take_optional t c) q (take_optional-kept t c q)

  or_same-kept :
      (o : Option (Client W)) (c d : Client W)
      → Q c.event_handler
      → Q (or_same o d).event_handler
      → Q (or_same o c).event_handler
  or_same-kept none c d q p = q
  or_same-kept (some c') c d q p = p

  pub single_fetch_toggles-kept :
      (l : Library) (client : HttpRequest → Option ComResponse) (ctx : Context) (c : Client W)
      → Q c.event_handler
      → Q (or_same (single_fetch_toggles l client ctx c) c).event_handler
  single_fetch_toggles-kept l client ctx c q =
      elim (Option-cases (fetch l client ctx c.toggle_fetcher)) [
        | inl e ↦ unfold single_fetch_toggles in rw e (unfold handle_fetched in q)
        | inr ((f, r), e) ↦
            let d = record c { toggle_fetcher = f } in
            unfold single_fetch_toggles in
            rw e (
              unfold handle_fetched in
              or_same-kept (handle_result r d) c d q
                (handle_result-kept r.status r.toggles r.error d q))
      ]

  report_failure-kept :
      (r : Option MetricResult) (c : Client W)
      → Q c.event_handler
      → Q (report_failure r c).event_handler
  unfolding report_failure emit_to error_event
  report_failure-kept none c q = q
  report_failure-kept (some r) c q = elim (Option-cases r.error) [
    | inl e ↦ rw e q
    | inr (m, e) ↦ rw e (k.at_error _ c.event_handler q)
  ]

  abbrev AllKept : {B : Type 0} → Option (Client W × B) → Type 0
  AllKept none = Unit {0}
  AllKept (some (c, b)) = Q c.event_handler

  send_metrics-kept :
      (l : Library) (utc : ℤ → Text) (w : MetricWake) (c : Client W)
      → Q c.event_handler
      → AllKept (send_metrics l utc w c)
  unfolding send_metrics
  send_metrics-kept l utc w c q = elim (Bool-cases (is_store_empty c.metric_store)) [
    | inl e ↦ rw e q
    | inr e ↦ rw e (elim (Option-cases (to_json_metrics_payload l utc w.stop_ms c.metric_store)) [
      | inl f ↦ rw f tt
      | inr (body, f) ↦ rw f q
    ])
  ]

  reported-kept :
      (exit : Bool) (o : Option (Client W × Option MetricResult)) (c : Client W)
      → Q c.event_handler
      → AllKept o
      → Q
          (sent_or_same
            (if exit
              then some (c, false)
              else elim o [ none ↦ none | some (c', r) ↦ some (report_failure r c', true) ])
            c).event_handler
  reported-kept true o c q a = q
  reported-kept false none c q a = q
  reported-kept false (some (c', r)) c q a = report_failure-kept r c' a

  pub wait_and_maybe_send-kept :
      (l : Library) (utc : ℤ → Text) (w : MetricWake) (c : Client W)
      → Q c.event_handler
      → Q (sent_or_same (wait_and_maybe_send l utc w c) c).event_handler
  unfolding wait_and_maybe_send
  wait_and_maybe_send-kept l utc w c q =
      reported-kept w.exit (send_metrics l utc w c) c q (send_metrics-kept l utc w c q)
