-- ===== src/Json/Encode/Metrics/Counts.antt =====
-- The counters that a reader finds in the body of a metrics request.
use unleash_cpp_sdk.Json.Encode.Paths.{
  at_path, at_path-cons, at_path-missing, at_path-single, find-set_entries, found,
}
use unleash_cpp_sdk.Metrics.MetricList.Counts.Ordered.{AreOrdered, lookup-HasOrder}
use unleash_cpp_sdk.Metrics.MetricList.Counts.{
  counts-none, counts-some, no_count, variant_count, yes_count,
}
use unleash_cpp_sdk.Metrics.Counters.{MetricToggle, or_zero, stat}
use unleash_cpp_sdk.Base.{
  Dict, IsSorted, IsSorted-HasOnce, List, Option, Option-cases, Text, [], codes, inl, inr, lookup,
  none, refl, some, ℕ, ◌∙◌, ◌∷◌, ◌≡◌, ◌⊎◌,
}
use unleash_cpp_sdk.Json.Library.{Laws, Library, on_object}
use unleash_cpp_sdk.Json.Encode.{
  encode_metric_toggle, encode_metrics_request_body, set_stats, set_toggles,
}
use unleash_cpp_sdk.Metrics.MetricList.{MetricList}
use unleash_cpp_sdk.Json.Encode.Metrics.{
  encode_metric_toggle-members, metrics_root, metrics_root-members, set_stats-entries,
  set_toggles-entries,
}

module _ (l : Library) where
  open l use {Json, of_number}

  -- The number that stands at a place, where nothing stands for 0.
  abbrev pub IsNumber : Option Json → ℕ → Type 0
  IsNumber o n = (o ≡ some (of_number n)) ⊎ ((o ≡ none) × (n ≡ 0))

  -- The counters of a toggle, and of a variant of it, where a reader of the toggles looks for them.
  abbrev pub HasCounts : (List Text → Option Json) → Text → ℕ → ℕ → (Text → ℕ) → Type 0
  HasCounts at k agreed refused served =
      IsNumber (at (k ∷ codes "yes" ∷ [])) agreed
      × IsNumber (at (k ∷ codes "no" ∷ [])) refused
      × ((w : Text) → IsNumber (at (k ∷ codes "variants" ∷ w ∷ [])) (served w))

  pub HasCounts-agree :
      (at at₂ : List Text → Option Json) (k : Text) (a r a₂ r₂ : ℕ) (v v₂ : Text → ℕ)
      → ((ks : List Text) → at₂ ks ≡ at ks)
      → (a₂ ≡ a) × (r₂ ≡ r) × ((w : Text) → v₂ w ≡ v w)
      → HasCounts at k a r v
      → HasCounts at₂ k a₂ r₂ v₂
  HasCounts-agree at at₂ k a r a₂ r₂ v v₂ e n h = (
    rw (e (k ∷ codes "yes" ∷ []), n.0) h.0,
    rw (e (k ∷ codes "no" ∷ []), n.1) h.1,
    λ w. rw (e (k ∷ codes "variants" ∷ w ∷ []), n.2 w) (h.2 w),
  )

module _ (l : Library) (laws : Laws l) where
  open l use {Json, dump, find, of_string, of_number, object}

  found-IsNumber :
      (w : Text) (m : Dict ℕ) → IsNumber l (found of_number (lookup w m) none) (stat w m)
  unfolding stat or_zero
  found-IsNumber w m = elim (Option-cases (lookup w m)) [
    | inl e ↦ rw e (inr (unfold found in refl, refl))
    | inr (n, e) ↦ rw e (inl (unfold found in refl))
  ]

  find-set_toggles :
      (k : Text) (m : MetricList)
      → IsSorted m
      → find k (set_toggles l m object) ≡ found (encode_metric_toggle l) (lookup k m) none
  find-set_toggles k m s = rw (set_toggles-entries l m object) (
      find-set_entries l laws (encode_metric_toggle l) k m object (IsSorted-HasOnce m s) on_object
      ∙ rw (laws.find-object k))

  find-set_stats :
      (w : Text) (m : Dict ℕ)
      → IsSorted m
      → find w (set_stats l m object) ≡ found of_number (lookup w m) none
  find-set_stats w m s = rw (set_stats-entries l m object) (
      find-set_entries l laws of_number w m object (IsSorted-HasOnce m s) on_object
      ∙ rw (laws.find-object w))

  missing-HasCounts :
      (k : Text) (m : MetricList)
      → IsSorted m
      → lookup k m ≡ none
      → HasCounts l
          (at_path l (set_toggles l m object))
          k
          (yes_count k m)
          (no_count k m)
          (λ w. variant_count k w m)
  missing-HasCounts k m s f =
      let gone : find k (set_toggles l m object) ≡ none =
        find-set_toggles k m s ∙ rw f (unfold found in refl) in
      let (y, n, v) = counts-none k m f in
      (
        inr (at_path-missing l k _ _ gone, y),
        inr (at_path-missing l k _ _ gone, n),
        λ w. inr (at_path-missing l k _ _ gone, v w),
      )

  present-HasCounts :
      (k : Text) (m : MetricList) (t : MetricToggle)
      → AreOrdered m
      → lookup k m ≡ some t
      → HasCounts l
          (at_path l (set_toggles l m object))
          k
          (yes_count k m)
          (no_count k m)
          (λ w. variant_count k w m)
  unfolding at_path
  present-HasCounts k m t (s, a) f =
      let ts = set_toggles l m object in
      let there : find k ts ≡ some (encode_metric_toggle l t) =
        find-set_toggles k m s ∙ rw f (unfold found in refl) in
      let (py, pn, pv) = encode_metric_toggle-members l laws t in
      let (y, n, v) = counts-some k m t f in
      (
        inl (rw y (at_path-cons l _ _ _ (codes "yes" ∷ []) there ∙ at_path-cons l _ _ _ [] py)),
        inl (rw n (at_path-cons l _ _ _ (codes "no" ∷ []) there ∙ at_path-cons l _ _ _ [] pn)),
        λ w.
            let vs = set_stats l t.variants_stats object in
            let e : at_path l ts (k ∷ codes "variants" ∷ w ∷ []) ≡ find w vs =
              at_path-cons l _ _ _ (codes "variants" ∷ w ∷ []) there
              ∙ (at_path-cons l _ _ _ (w ∷ []) pv ∙ at_path-single l w vs) in
            rw (v w, e, find-set_stats w t.variants_stats (lookup-HasOrder k m t a f))
              (found-IsNumber w t.variants_stats),
      )

  set_toggles-HasCounts :
      (k : Text) (m : MetricList)
      → AreOrdered m
      → HasCounts l
          (at_path l (set_toggles l m object))
          k
          (yes_count k m)
          (no_count k m)
          (λ w. variant_count k w m)
  set_toggles-HasCounts k m h = elim (Option-cases (lookup k m)) [
    | inl f ↦ missing-HasCounts k m h.0 f
    | inr (t, f) ↦ present-HasCounts k m t h f
  ]

  -- Where a reader of the body finds the members of the request.
  pub encode_metrics_request_body-counts :
      (m : MetricList) (start stop app_name instance_id : Text)
      → AreOrdered m
      → (root : Json) × (encode_metrics_request_body l m start stop app_name instance_id
          ≡ dump root)
        × (at_path l root (codes "appName" ∷ []) ≡ some (of_string app_name))
        × (at_path l root (codes "instanceId" ∷ []) ≡ some (of_string instance_id))
        × (at_path l root (codes "bucket" ∷ codes "start" ∷ []) ≡ some (of_string start))
        × (at_path l root (codes "bucket" ∷ codes "stop" ∷ []) ≡ some (of_string stop))
        × ((k : Text)
            → HasCounts l
                (λ ks. at_path l root (codes "bucket" ∷ codes "toggles" ∷ ks))
                k
                (yes_count k m)
                (no_count k m)
                (λ w. variant_count k w m))
  encode_metrics_request_body-counts m start stop app_name instance_id h =
      let root = metrics_root l laws m start stop app_name instance_id in
      let (a, i, b, e, t) = metrics_root-members l laws m start stop app_name instance_id in
      (
        root,
        unfold encode_metrics_request_body metrics_root in refl,
        a,
        i,
        b,
        e,
        λ k.
            HasCounts-agree l (at_path l (set_toggles l m object)) _ k _ _ _ _ _ _ t
              (refl, refl, λ w. refl) (set_toggles-HasCounts k m h),
      )
