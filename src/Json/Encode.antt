-- ===== src/Json/Encode.antt =====
-- `encodeClientFeaturesResponse`, `encodeContextRequestBody` and `encodeMetricsRequestBody`.
pub mod Paths
pub mod ContextBody
pub mod Metrics
use unleash_cpp_sdk.Base.{
  Dict, List, Option, Text, [], codes, if◌then◌else◌, is_empty, none, some, ℕ, ◌∷◌,
}
use unleash_cpp_sdk.Domain.Variant.{Payload, Toggle, Variant, payload_empty}
use unleash_cpp_sdk.Domain.Toggles.{ToggleSet}
use unleash_cpp_sdk.Domain.Context.{Context}
use unleash_cpp_sdk.Metrics.Counters.{MetricToggle}
use unleash_cpp_sdk.Metrics.MetricList.{MetricList}
use unleash_cpp_sdk.Json.Library.{Library}

module _ (l : Library) where
  open l use {Json, dump, is_utf8, of_string, of_bool, of_number, of_list, object, null, set}

  unfoldable pub encode_payload : Payload → Json
  encode_payload p =
      set (codes "value") (of_string p.value) (set (codes "type") (of_string p.type) null)

  -- A payload without a type is left out.
  unfoldable pub set_payload : Option Payload → Json → Json
  unfolding payload_empty encode_payload
  set_payload none j = j
  set_payload (some p) j = if payload_empty p then j else set (codes "payload") (encode_payload p) j

  unfoldable pub encode_variant : Variant → Json
  unfolding set_payload
  encode_variant v =
      set_payload v.payload
        (set (codes "enabled") (of_bool v.enabled) (set (codes "name") (of_string v.name) null))

  unfoldable pub encode_toggle : Toggle → Json
  unfolding encode_variant
  encode_toggle t = set (codes "variant") (encode_variant t.variant) (
      set (codes "impressionData") (of_bool t.impression_data)
        (set (codes "enabled") (of_bool t.enabled) (set (codes "name") (of_string t.name) null)))

  unfoldable pub encode_entries : Dict Toggle → List Json
  unfolding encode_toggle
  encode_entries [] = []
  encode_entries ((name, t) ∷ m) = encode_toggle t ∷ encode_entries m

  unfoldable pub encode_root : ToggleSet → Json
  unfolding encode_entries
  encode_root s = set (codes "toggles") (of_list (encode_entries s.toggles)) null

  -- The text of a set whose strings are UTF-8, as all of a set are that was decoded from a text.
  unfoldable pub encode_client_features_response : ToggleSet → Text
  unfolding encode_root
  encode_client_features_response s = dump (encode_root s)

  set_if : Text → Option Text → Json → Json
  set_if k none j = j
  set_if k (some s) j = set k (of_string s) j

  set_properties : Dict Text → Json → Json
  set_properties [] j = j
  set_properties ((k, v) ∷ m) j = set_properties m (set k (of_string v) j)

  -- `none` is the exception of `dump()`.
  unfoldable pub encode_context_request_body : Context → Option Text
  unfolding set_if set_properties
  encode_context_request_body ctx =
      let mc = ctx.mutable_context in
      let j₀ =
        set (codes "sessionId") (of_string ctx.session_id)
          (set (codes "appName") (of_string ctx.app_name) object) in
      let j₁ = set_if (codes "environment") ctx.environment j₀ in
      let j₂ = set_if (codes "userId") mc.user_id j₁ in
      let j₃ = set_if (codes "remoteAddress") mc.remote_address j₂ in
      let j₄ = set_if (codes "currentTime") mc.current_time j₃ in
      let j₅ =
        if is_empty mc.properties
        then j₄
        else set (codes "properties") (set_properties mc.properties null) j₄ in
      let root = set (codes "context") j₅ null in if is_utf8 root then some (dump root) else none

  set_stats : Dict ℕ → Json → Json
  set_stats [] j = j
  set_stats ((k, n) ∷ m) j = set_stats m (set k (of_number n) j)

  unfoldable pub encode_metric_toggle : MetricToggle → Json
  unfolding set_stats
  encode_metric_toggle t =
      set (codes "variants") (set_stats t.variants_stats object)
        (set (codes "no") (of_number t.no_count) (set (codes "yes") (of_number t.yes_count) object))

  set_toggles : MetricList → Json → Json
  unfolding encode_metric_toggle
  set_toggles [] j = j
  set_toggles ((k, t) ∷ m) j = set_toggles m (set k (encode_metric_toggle t) j)

  -- The text for names that are UTF-8.
  unfoldable pub encode_metrics_request_body : MetricList → Text → Text → Text → Text → Text
  unfolding set_toggles
  encode_metrics_request_body metrics start stop app_name instance_id =
      let bucket =
        set (codes "toggles") (set_toggles metrics object)
          (set (codes "stop") (of_string stop) (set (codes "start") (of_string start) object)) in
      dump (
        set (codes "instanceId") (of_string instance_id)
          (set (codes "appName") (of_string app_name) (set (codes "bucket") bucket object)))
