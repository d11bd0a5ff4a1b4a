-- ===== src/Client/Evaluate/Questions/Payload.antt =====
-- From the questions that the client is asked to the body of the next metrics request.
use unleash_cpp_sdk.Client.Evaluate.Questions.Effects.{ask_all-reports}
use unleash_cpp_sdk.Json.Encode.Paths.{at_path}
use unleash_cpp_sdk.Json.Encode.{encode_metrics_request_body}
use unleash_cpp_sdk.Metrics.MetricList.Counts.Ordered.{add_all-AreOrdered}
use unleash_cpp_sdk.Utils.Times.{from_ms_ts_to_utc_time}
use unleash_cpp_sdk.Json.Library.{Laws, Library}
use unleash_cpp_sdk.Store.Flags.{snapshot}
use unleash_cpp_sdk.Metrics.MetricsStore.{MetricsStore, to_json_metrics_payload}
use unleash_cpp_sdk.Base.{
  Bool, Dict, List, Text, [], ap, arith, codes, false, if◌then◌else◌, is_empty, is_some, lookup,
  ltb, not, refl, some, sym, text_eq, true, ℕ, ℤ, ◌%◌, ◌&&◌, ◌∙◌, ◌∷◌, ◌≡◌,
}
use unleash_cpp_sdk.Domain.Toggles as Toggles
use unleash_cpp_sdk.Domain.Toggles.{ToggleSet, contains}
use unleash_cpp_sdk.Metrics.Counters.{uint_mod}
use unleash_cpp_sdk.Metrics.MetricList.{add_all}
use unleash_cpp_sdk.Metrics.MetricList.Counts.{
  add_all-entries, add_all-variant, add_all-yes_no, count_if, says, serves,
}
use unleash_cpp_sdk.Client.State.{Client}
use unleash_cpp_sdk.Client.Evaluate.Questions.{
  Question, ask_all, asked, asked-cons, asked_variant, asked_variant-cons, count_if-reports_of,
  names-reports_of, reports_of, says-reports_of, serves-reports_of,
}
use unleash_cpp_sdk.Json.Encode.Metrics.Counts.{
  HasCounts, HasCounts-agree, encode_metrics_request_body-counts,
}

pub present-is_empty :
    {V : Type 0} (k : Text) (m : Dict V) → is_some (lookup k m) ≡ true → is_empty m ≡ false
unfolding lookup
present-is_empty k [] h = absurd (ground arith)
present-is_empty k (e ∷ m) h = refl

abbrev pub when : Bool → ℕ → ℕ
when b n = (if b then n else 0) % uint_mod

says_counted :
    (k : Text) (a : Bool) (s : ToggleSet) (qs : List Question) {n : ℕ}
    → n ≡ count_if (says k a) (reports_of s qs) % uint_mod
    → when
        (contains k s && (if a then Toggles.is_enabled k s else not (Toggles.is_enabled k s)))
        (asked k qs)
      ≡ n
says_counted k a s qs e = sym (
    e
    ∙ ap (λ c. c % uint_mod)
        (count_if-reports_of (says k a) _ s (asked k) (unfold asked in refl) (asked-cons k)
          (says-reports_of k a s) qs))

serves_counted :
    (k w : Text) (s : ToggleSet) (qs : List Question) {n : ℕ}
    → n ≡ count_if (serves k w) (reports_of s qs) % uint_mod
    → when
        (contains k s
          && (not (is_empty (Toggles.get_variant k s).name)
              && text_eq (Toggles.get_variant k s).name w))
        (asked_variant k qs)
      ≡ n
serves_counted k w s qs e = sym (
    e
    ∙ ap (λ c. c % uint_mod)
        (count_if-reports_of (serves k w) _ s (asked_variant k) (unfold asked_variant in refl)
          (asked_variant-cons k) (serves-reports_of k w s) qs))

payload_of :
    (l : Library) (utc : ℤ → Text) (now : ℤ) (m : MetricsStore)
    → is_empty m.list ≡ false
    → to_json_metrics_payload l utc now m
      ≡ some (
          encode_metrics_request_body l m.list
            (from_ms_ts_to_utc_time utc m.start_ms)
            (from_ms_ts_to_utc_time utc now)
            m.app_name
            m.instance_id)
unfolding to_json_metrics_payload
payload_of l utc now m n = rw n

-- What a reader finds in the value of a metrics body: the application's name, the instance, the start
-- of the window and its stop, and the counters that the questions make of a set of toggles.
abbrev pub Tells :
    (l : Library) → l.Json → ToggleSet → MetricsStore → Text → Text → List Question → Type 0
Tells l root set m start stop qs =
    (at_path l root (codes "appName" ∷ []) ≡ some (l.of_string m.app_name))
    × (at_path l root (codes "instanceId" ∷ []) ≡ some (l.of_string m.instance_id))
    × (at_path l root (codes "bucket" ∷ codes "start" ∷ []) ≡ some (l.of_string start))
    × (at_path l root (codes "bucket" ∷ codes "stop" ∷ []) ≡ some (l.of_string stop))
    × ((k : Text)
        → HasCounts l (λ ks. at_path l root (codes "bucket" ∷ codes "toggles" ∷ ks)) k
            (when (contains k set && Toggles.is_enabled k set) (asked k qs))
            (when (contains k set && not (Toggles.is_enabled k set)) (asked k qs))
            (λ w.
              when
                (contains k set
                  && (not (is_empty (Toggles.get_variant k set).name)
                      && text_eq (Toggles.get_variant k set).name w))
                (asked_variant k qs)))

module _ {W : Type 0} where
  reported_list :
      (qs : List Question) (c : Client W)
      → c.ready ≡ true
      → c.metric_store.list ≡ []
      → (ask_all qs c).metric_store
        ≡ record (c.metric_store) { list = add_all (reports_of (snapshot c.flag_store) qs) [] }
  reported_list qs c r e = ask_all-reports qs c r ∙ rw e

  -- If a ready client with no metrics is asked any questions, at least one of them for a flag of its
  -- snapshot, then the body of the next metrics request is the text of a value in which a reader finds the
  -- application's name, the instance, and the start of the window and its stop; and for each flag: the
  -- number of questions under `yes` if the flag is in the snapshot and enabled, under `no` if it is
  -- in the snapshot and not enabled, and the number of questions for its variant under the name of
  -- this variant. All other counters are 0, a counter that is
  -- 0 may be absent, and all numbers are modulo 2^32.
  pub asked_counts :
      (l : Library) (laws : Laws l) (utc : ℤ → Text) (now : ℤ) (qs : List Question) (c : Client W)
      (name : Text)
      → c.ready ≡ true
      → c.metric_store.list ≡ []
      → contains name (snapshot c.flag_store) ≡ true
      → ltb 0 (asked name qs) ≡ true
      → let set = snapshot c.flag_store in
        let m = c.metric_store in
        (root : l.Json) × (to_json_metrics_payload l utc now (ask_all qs c).metric_store
          ≡ some (l.dump root))
        × Tells l root set m
            (from_ms_ts_to_utc_time utc m.start_ms)
            (from_ms_ts_to_utc_time utc now)
            qs
  asked_counts l laws utc now qs c name r e n o =
      let set = snapshot c.flag_store in
      let m = c.metric_store in
      let rs = reports_of set qs in
      let list = add_all rs [] in
      let (root, p, a, i, b, d, counts) =
        encode_metrics_request_body-counts l laws list (from_ms_ts_to_utc_time utc m.start_ms)
          (from_ms_ts_to_utc_time utc now) m.app_name m.instance_id
          (add_all-AreOrdered rs [] (tt, tt)) in
      let full : is_empty list ≡ false =
        present-is_empty name list
          (add_all-entries name rs ∙ (names-reports_of name set qs ∙ rw (n, o))) in
      let at = λ (ks : List Text). at_path l root (codes "bucket" ∷ codes "toggles" ∷ ks) in
      (
        root,
        rw (reported_list qs c r e) (payload_of l utc now (record m { list = list }) full ∙ rw p),
        (
          a,
          i,
          b,
          d,
          λ k.
              HasCounts-agree l at at k _ _ _ _ _ _ (λ ks. refl)
                (
                  says_counted k true set qs (add_all-yes_no k rs).0,
                  says_counted k false set qs (add_all-yes_no k rs).1,
                  λ w. serves_counted k w set qs (add_all-variant k w rs),
                )
                (counts k),
        ),
      )
