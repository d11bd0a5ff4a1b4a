-- ===== src/Client/Threads/Windows.antt =====
-- The window of the metrics: what one report leaves behind and the next one tells.
use unleash_cpp_sdk.Client.Evaluate.Questions.Effects.{ask_all-others}
use unleash_cpp_sdk.Utils.Times.{from_ms_ts_to_utc_time}
use unleash_cpp_sdk.Store.Flags.{snapshot}
use unleash_cpp_sdk.Domain.Toggles.{ToggleSet, contains}
use unleash_cpp_sdk.Client.Evaluate.Questions.Payload.{Tells, asked_counts}
use unleash_cpp_sdk.Client.Evaluate.Questions.{Question, ask_all, asked}
use unleash_cpp_sdk.Client.Threads.Sending.{payload_present, send_nothing, send_payload}
use unleash_cpp_sdk.Transport.Messages.{ComResponse, HttpRequest}
use unleash_cpp_sdk.Base.{
  Bool-cases, List, Option, Option-cases, Text, [], ap, arith, false, inl, inr, is_empty, ltb, none,
  refl, some, subst, sym, true, ℤ, ◌∙◌, ◌≡◌,
}
use unleash_cpp_sdk.Client.State.{Client}
use unleash_cpp_sdk.Client.Threads.{MetricWake, report_failure, send_metrics, wait_and_maybe_send}
use unleash_cpp_sdk.Json.Library.{Laws, Library}
use unleash_cpp_sdk.Metrics.MetricsStore.{MetricsStore, reset, to_json_metrics_payload}
use unleash_cpp_sdk.Metrics.MetricSender.{MetricResult, MetricSender, send_body}

reset-list : (now : ℤ) (m : MetricsStore) → (reset now m).list ≡ []
unfolding reset
reset-list now m = refl

module _ (l : Library) (utc : ℤ → Text) where
  payload-full :
      (now : ℤ) (m : MetricsStore) (body : Text)
      → to_json_metrics_payload l utc now m ≡ some body
      → is_empty m.list ≡ false
  unfolding to_json_metrics_payload
  payload-full now m body p = ground arith

  -- The window after a report starts where the report has reset the store.
  Tells-reset :
      (root : l.Json) (set : ToggleSet) (m : MetricsStore) (now : ℤ) (stop : Text)
      (qs : List Question)
      → Tells l root set (reset now m) (from_ms_ts_to_utc_time utc (reset now m).start_ms) stop qs
      → Tells l root set m (from_ms_ts_to_utc_time utc now) stop qs
  unfolding reset
  Tells-reset root set m now stop qs h = h

-- The sender's request with a body.
abbrev pub with_body : MetricSender → Text → HttpRequest
with_body s body = record (s.http_request) { body = body }

module _ {W : Type 0} (l : Library) (utc : ℤ → Text) where
  -- All that a report leaves alone or starts anew.
  record Leaves (w : MetricWake) (c c' : Client W) : Type 0 where
    pub store : c'.metric_store ≡ reset w.reset_ms c.metric_store
    pub ready : c'.ready ≡ c.ready
    pub flags : c'.flag_store ≡ c.flag_store

  report_failure-Leaves :
      (w : MetricWake) (c c' : Client W) (r : Option MetricResult)
      → Leaves w c c'
      → Leaves w c (report_failure r c')
  unfolding report_failure
  report_failure-Leaves w c c' none h = h
  report_failure-Leaves w c c' (some r) h = elim (Option-cases r.error) [
    | inl e ↦ rw e h
    | inr (m, e) ↦ rw e (record { store = h.store; ready = h.ready; flags = h.flags })
  ]

  send-Leaves :
      (w : MetricWake) (c : Client W)
      → (c' : Client W) × (r : Option MetricResult) × (send_metrics l utc w c ≡ some (c', r))
        × Leaves w c c'
  send-Leaves w c = elim (Bool-cases (is_empty c.metric_store.list)) [
    | inl e ↦
        (_, none, send_nothing l utc w c e, record { store = refl; ready = refl; flags = refl })
    | inr e ↦
        let (body, p) = payload_present l utc w.stop_ms c.metric_store e in
        (_, _, send_payload l utc w c body e p, record { store = refl; ready = refl; flags = refl })
  ]

  round_sends :
      (w : MetricWake) (c c' : Client W) (r : Option MetricResult)
      → w.exit ≡ false
      → send_metrics l utc w c ≡ some (c', r)
      → wait_and_maybe_send l utc w c ≡ some (report_failure r c', true)
  unfolding wait_and_maybe_send
  round_sends w c c' r e p = rw (e, p)

  round-Leaves :
      (w : MetricWake) (c : Client W)
      → w.exit ≡ false
      → (c' : Client W) × (wait_and_maybe_send l utc w c ≡ some (c', true)) × Leaves w c c'
  round-Leaves w c e =
      let (c', r, p, h) = send-Leaves w c in
      (report_failure r c', round_sends w c c' r e p, report_failure-Leaves w c c' r h)

  report_failure-sender :
      (c : Client W) (r : MetricResult)
      → (report_failure (some r) c).metric_sender ≡ c.metric_sender
  unfolding report_failure
  report_failure-sender c r = elim (Option-cases r.error) [ inl e ↦ rw e | inr (m, e) ↦ rw e ]

  send_body-request :
      (client client' : HttpRequest → Option ComResponse) (body : Text) (c : Client W)
      → ((send_body client body c.metric_sender).0.http_request ≡ with_body c.metric_sender body)
        × (client (with_body c.metric_sender body) ≡ client' (with_body c.metric_sender body)
            → send_body client body c.metric_sender ≡ send_body client' body c.metric_sender)
  unfolding send_body
  send_body-request client client' body c = (refl, λ e. rw e)

  -- The outcome of the report hangs on the answer to this request alone.
  abbrev pub Posts : MetricWake → Client W → HttpRequest → Type 0
  Posts w c req =
      (client : HttpRequest → Option ComResponse)
      → client req ≡ w.client req
      → wait_and_maybe_send l utc (record w { client = client }) c ≡ wait_and_maybe_send l utc w c

  round-Posts :
      (w : MetricWake) (c : Client W) (body : Text)
      → w.exit ≡ false
      → is_empty c.metric_store.list ≡ false
      → to_json_metrics_payload l utc w.stop_ms c.metric_store ≡ some body
      → (c' : Client W) × (wait_and_maybe_send l utc w c ≡ some (c', true))
        × (c'.metric_sender.http_request ≡ with_body c.metric_sender body)
        × Posts w c (with_body c.metric_sender body)
  round-Posts w c body e f p =
      let send = λ (client : HttpRequest → Option ComResponse).
        round_sends (record w { client = client }) c _ _ e
          (send_payload l utc (record w { client = client }) c body f p) in
      let (s, r) = send_body w.client body c.metric_sender in
      (
        report_failure (some r)
            (record c { metric_sender = s; metric_store = reset w.reset_ms c.metric_store }),
        send w.client,
        ap (λ x. x.http_request)
              (report_failure-sender
                (record c { metric_sender = s; metric_store = reset w.reset_ms c.metric_store }) r)
            ∙ (send_body-request w.client w.client body c).0,
        λ client h.
            send client ∙ rw ((send_body-request client w.client body c).1 h) (sym (send w.client)),
      )

  -- Where the names that the bodies hold are UTF-8, so that the library's `dump()` does not throw: a
  -- ready client makes a report, whatever comes of it; then it is asked any questions, at least one
  -- of them for a flag of its snapshot; and then it makes the next report. This one posts the request
  -- whose body is the text of a value that tells just these questions and no others, in a window from the
  -- reset of the first report to the payload of the second: and its outcome hangs on the answer to this
  -- request alone.
  pub next_window :
      Laws l
      → (w₁ w₂ : MetricWake) (qs : List Question) (c : Client W) (name : Text) → w₁.exit ≡ false
      → w₂.exit ≡ false
      → c.ready ≡ true
      → contains name (snapshot c.flag_store) ≡ true
      → ltb 0 (asked name qs) ≡ true
      → (c₁ c₂ : Client W) × (root : l.Json) × (wait_and_maybe_send l utc w₁ c ≡ some (c₁, true))
        × (wait_and_maybe_send l utc w₂ (ask_all qs c₁) ≡ some (c₂, true))
        × (c₂.metric_sender.http_request ≡ with_body c₁.metric_sender (l.dump root))
        × Posts w₂ (ask_all qs c₁) (with_body c₁.metric_sender (l.dump root))
        × Tells l root
            (snapshot c.flag_store)
            c.metric_store
            (from_ms_ts_to_utc_time utc w₁.reset_ms)
            (from_ms_ts_to_utc_time utc w₂.stop_ms)
            qs
  next_window laws w₁ w₂ qs c name e₁ e₂ r n o =
      let (c₁, p, h) = round-Leaves w₁ c e₁ in
      let same = (ask_all-others qs c₁ (h.ready ∙ r)).0 in
      let (root, q, t) =
        asked_counts l laws utc w₂.stop_ms qs c₁ name (h.ready ∙ r)
          (ap (λ m. m.list) h.store ∙ reset-list w₁.reset_ms c.metric_store)
          (ap (λ f. contains name (snapshot f)) h.flags ∙ n) o in
      let (c₂, x, y, z) =
        round-Posts w₂ (ask_all qs c₁) (l.dump root) e₂ (payload-full l utc w₂.stop_ms _ _ q) q in
      (
        c₁,
        c₂,
        root,
        p,
        x,
        subst (λ s. c₂.metric_sender.http_request ≡ with_body s (l.dump root)) same y,
        subst (λ s. Posts w₂ (ask_all qs c₁) (with_body s (l.dump root))) same z,
        Tells-reset l utc root (snapshot c.flag_store) c.metric_store w₁.reset_ms
            (from_ms_ts_to_utc_time utc w₂.stop_ms) qs
            (subst
              (λ f.
                Tells l root (snapshot f) (reset w₁.reset_ms c.metric_store)
                  (from_ms_ts_to_utc_time utc (reset w₁.reset_ms c.metric_store).start_ms)
                  (from_ms_ts_to_utc_time utc w₂.stop_ms) qs)
              h.flags
              (subst
                (λ m.
                  Tells l root (snapshot c₁.flag_store) m (from_ms_ts_to_utc_time utc m.start_ms)
                    (from_ms_ts_to_utc_time utc w₂.stop_ms) qs)
                h.store t)),
      )
