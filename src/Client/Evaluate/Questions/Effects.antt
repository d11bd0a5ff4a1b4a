-- ===== src/Client/Evaluate/Questions/Effects.antt =====
-- What the questions change of the client: the reports of its metrics store, and no more of these.
use unleash_cpp_sdk.Client.Evaluate.Effects.{
  get_variant-metric_sender, get_variant-ready, get_variant_lem, is_enabled-metric_sender,
  is_enabled-ready, is_enabled_lem, is_known,
}
use unleash_cpp_sdk.Store.Flags.{snapshot}
use unleash_cpp_sdk.Metrics.MetricsStore.{MetricsStore, add_metric, reset}
use unleash_cpp_sdk.Base.{Bool-cases, List, [], ap, inl, inr, refl, true, ℤ, ◌++◌, ◌∙◌, ◌∷◌, ◌≡◌}
use unleash_cpp_sdk.Domain.Toggles.{contains}
use unleash_cpp_sdk.Metrics.MetricList.{MetricList, Report, add, add_all}
use unleash_cpp_sdk.Client.State.{Client}
use unleash_cpp_sdk.Client.Evaluate.Questions.{
  Question, ask, ask_all, enabled_of, report_of, reports_of, variant_of,
}

add_all-append :
    (rs ss : List Report) (m : MetricList) → add_all (rs ++ ss) m ≡ add_all ss (add_all rs m)
unfolding add_all
add_all-append [] ss m = refl
add_all-append (x ∷ rs) ss m = add_all-append rs ss (add x m)

module _ {W : Type 0} where
  ask-keeps :
      (q : Question) (c : Client W)
      → c.ready ≡ true
      → ((ask q c).ready ≡ true)
        × ((ask q c).flag_store ≡ c.flag_store)
        × ((ask q c).metric_store ≡ record (c.metric_store) {
          list = add_all (report_of (snapshot c.flag_store) q) c.metric_store.list;
        })
  unfolding ask report_of add_all add_metric is_known
  ask-keeps (enabled_of name) c r =
      let (a, m, e, f) = is_enabled_lem name c in
      (
        is_enabled-ready name c ∙ r,
        f,
        m ∙ elim (Bool-cases (contains name (snapshot c.flag_store))) [
          | inl h ↦ rw (is_known, r, h)
          | inr h ↦ rw (is_known, r, h)
        ],
      )
  ask-keeps (variant_of name) c r =
      let (a, m, e, f) = get_variant_lem name c in
      (
        get_variant-ready name c ∙ r,
        f,
        m ∙ elim (Bool-cases (contains name (snapshot c.flag_store))) [
          | inl h ↦ rw (is_known, r, h)
          | inr h ↦ rw (is_known, r, h)
        ],
      )

  ask-metric_sender : (q : Question) (c : Client W) → (ask q c).metric_sender ≡ c.metric_sender
  unfolding ask
  ask-metric_sender (enabled_of name) c = is_enabled-metric_sender name c
  ask-metric_sender (variant_of name) c = get_variant-metric_sender name c

  pub ask_all-reports :
      (qs : List Question) (c : Client W)
      → c.ready ≡ true
      → (ask_all qs c).metric_store ≡ record (c.metric_store) {
        list = add_all (reports_of (snapshot c.flag_store) qs) c.metric_store.list;
      }
  unfolding ask_all reports_of
  ask_all-reports [] c r = unfold add_all in refl
  ask_all-reports (q ∷ qs) c r =
      let (a, f, m) = ask-keeps q c r in
      rw
        (add_all-append (report_of (snapshot c.flag_store) q)
          (reports_of (snapshot c.flag_store) qs) c.metric_store.list)
        (ask_all-reports qs (ask q c) a ∙ rw (f, m))

  -- A reset drops the reports of the questions.
  pub reset-ask_all :
      (now : ℤ) (qs : List Question) (c : Client W)
      → c.ready ≡ true
      → reset now (ask_all qs c).metric_store ≡ reset now c.metric_store
  unfolding reset
  reset-ask_all now qs c r =
      let clear : MetricsStore → MetricsStore = λ m. record m { list = []; start_ms = now } in
      ap clear (ask_all-reports qs c r)

  pub ask_all-others :
      (qs : List Question) (c : Client W)
      → c.ready ≡ true
      → ((ask_all qs c).metric_sender ≡ c.metric_sender)
        × ((ask_all qs c).ready ≡ true)
        × ((ask_all qs c).flag_store ≡ c.flag_store)
  unfolding ask_all
  ask_all-others [] c r = (refl, r, refl)
  ask_all-others (q ∷ qs) c r =
      let (a, f, m) = ask-keeps q c r in
      let (x, y, z) = ask_all-others qs (ask q c) a in (x ∙ ask-metric_sender q c, y, z ∙ f)
