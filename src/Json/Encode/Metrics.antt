-- ===== src/Json/Encode/Metrics.antt =====
-- What a reader finds in the body of a metrics request.
pub mod Counts
use unleash_cpp_sdk.Json.Encode.Paths.{at_path, at_path-cons, set_entries}
use unleash_cpp_sdk.Json.RoundTrip.{hit, miss}
use unleash_cpp_sdk.Metrics.Counters.{MetricToggle}
use unleash_cpp_sdk.Base.{Dict, List, Text, [], codes, refl, some, text_eq, ℕ, ◌∙◌, ◌∷◌, ◌≡◌}
use unleash_cpp_sdk.Json.Library.{CanSet, Laws, Library, on_object, on_set}
use unleash_cpp_sdk.Json.Encode.{encode_metric_toggle, set_stats, set_toggles}
use unleash_cpp_sdk.Metrics.MetricList.{MetricList}

module _ (l : Library) where
  open l use {Json, of_number, set}

  set_stats-entries : (m : Dict ℕ) (j : Json) → set_stats l m j ≡ set_entries l of_number m j
  unfolding set_stats set_entries
  set_stats-entries [] j = refl
  set_stats-entries ((k, n) ∷ m) j = set_stats-entries m (set k (of_number n) j)

  set_toggles-entries :
      (m : MetricList) (j : Json) → set_toggles l m j ≡ set_entries l (encode_metric_toggle l) m j
  unfolding set_toggles set_entries
  set_toggles-entries [] j = refl
  set_toggles-entries ((k, t) ∷ m) j = set_toggles-entries m (set k (encode_metric_toggle l t) j)

module _ (l : Library) (laws : Laws l) where
  open l use {Json, dump, find, of_string, of_number, object, set}

  -- The members of the entry of a toggle.
  encode_metric_toggle-members :
      (t : MetricToggle)
      → (find (codes "yes") (encode_metric_toggle l t) ≡ some (of_number t.yes_count))
        × (find (codes "no") (encode_metric_toggle l t) ≡ some (of_number t.no_count))
        × (find (codes "variants") (encode_metric_toggle l t)
            ≡ some (set_stats l t.variants_stats object))
  unfolding encode_metric_toggle text_eq
  encode_metric_toggle-members t =
      let c₀ : CanSet l object = on_object in
      let o₁ = set (codes "yes") (of_number t.yes_count) object in
      let c₁ : CanSet l o₁ = on_set c₀ in
      let o₂ = set (codes "no") (of_number t.no_count) o₁ in
      let c₂ : CanSet l o₂ = on_set c₁ in
      let v = set_stats l t.variants_stats object in
      (
        miss l laws (codes "variants") (codes "yes") v o₂ c₂ refl
            ∙ (miss l laws (codes "no") (codes "yes") (of_number t.no_count) o₁ c₁ refl
                ∙ hit l laws (codes "yes") (of_number t.yes_count) object c₀),
        miss l laws (codes "variants") (codes "no") v o₂ c₂ refl
            ∙ hit l laws (codes "no") (of_number t.no_count) o₁ c₁,
        hit l laws (codes "variants") v o₂ c₂,
      )

  -- The value that is printed.
  metrics_root : MetricList → Text → Text → Text → Text → Json
  metrics_root metrics start stop app_name instance_id =
      let bucket =
        set (codes "toggles") (set_toggles l metrics object)
          (set (codes "stop") (of_string stop) (set (codes "start") (of_string start) object)) in
      set (codes "instanceId") (of_string instance_id)
        (set (codes "appName") (of_string app_name) (set (codes "bucket") bucket object))

  metrics_root-members :
      (m : MetricList) (start stop app_name instance_id : Text)
      → let root = metrics_root m start stop app_name instance_id in
        (at_path l root (codes "appName" ∷ []) ≡ some (of_string app_name))
        × (at_path l root (codes "instanceId" ∷ []) ≡ some (of_string instance_id))
        × (at_path l root (codes "bucket" ∷ codes "start" ∷ []) ≡ some (of_string start))
        × (at_path l root (codes "bucket" ∷ codes "stop" ∷ []) ≡ some (of_string stop))
        × ((ks : List Text)
            → at_path l root (codes "bucket" ∷ codes "toggles" ∷ ks)
              ≡ at_path l (set_toggles l m object) ks)
  unfolding metrics_root at_path text_eq
  metrics_root-members m start stop app_name instance_id =
      let c₀ : CanSet l object = on_object in
      let s₁ = set (codes "start") (of_string start) object in
      let d₁ : CanSet l s₁ = on_set c₀ in
      let s₂ = set (codes "stop") (of_string stop) s₁ in
      let d₂ : CanSet l s₂ = on_set d₁ in
      let ts = set_toggles l m object in
      let bucket = set (codes "toggles") ts s₂ in
      let o₁ = set (codes "bucket") bucket object in
      let c₁ : CanSet l o₁ = on_set c₀ in
      let o₂ = set (codes "appName") (of_string app_name) o₁ in
      let c₂ : CanSet l o₂ = on_set c₁ in
      let i = of_string instance_id in
      let app =
        miss l laws (codes "instanceId") (codes "appName") i o₂ c₂ refl
        ∙ hit l laws (codes "appName") (of_string app_name) o₁ c₁ in
      let inst = hit l laws (codes "instanceId") i o₂ c₂ in
      let b =
        miss l laws (codes "instanceId") (codes "bucket") i o₂ c₂ refl
        ∙ (miss l laws (codes "appName") (codes "bucket") (of_string app_name) o₁ c₁ refl
            ∙ hit l laws (codes "bucket") bucket object c₀) in
      let st =
        miss l laws (codes "toggles") (codes "start") ts s₂ d₂ refl
        ∙ (miss l laws (codes "stop") (codes "start") (of_string stop) s₁ d₁ refl
            ∙ hit l laws (codes "start") (of_string start) object c₀) in
      let en =
        miss l laws (codes "toggles") (codes "stop") ts s₂ d₂ refl
        ∙ hit l laws (codes "stop") (of_string stop) s₁ d₁ in
      let tg = hit l laws (codes "toggles") ts s₂ d₂ in
      (
        at_path-cons l _ _ _ [] app,
        at_path-cons l _ _ _ [] inst,
        at_path-cons l _ _ _ (codes "start" ∷ []) b ∙ at_path-cons l _ _ _ [] st,
        at_path-cons l _ _ _ (codes "stop" ∷ []) b ∙ at_path-cons l _ _ _ [] en,
        λ ks. at_path-cons l _ _ _ (codes "toggles" ∷ ks) b ∙ at_path-cons l _ _ _ ks tg,
      )
