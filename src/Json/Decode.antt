-- ===== src/Json/Decode.antt =====
-- `decodeToggle` and `decodeClientFeaturesResponse`.
use unleash_cpp_sdk.Base.{
  Bool, List, Option, Text, [], codes, false, if◌then◌else◌, is_empty, none, not, some, true, ℕ,
  ◌++◌, ◌+◌, ◌||◌, ◌∷◌,
}
use unleash_cpp_sdk.Base.Expected.{Expected, expected, or_error, unexpected, ◌>>=◌}
use unleash_cpp_sdk.Domain.Variant.{
  Payload, Toggle, Variant, disabled_factory, make_toggle, make_variant,
}
use unleash_cpp_sdk.Domain.Toggles.{ToggleSet, from_list}
use unleash_cpp_sdk.Utils.Strings.{to_string}
use unleash_cpp_sdk.Json.Library.{Library}

module _ (l : Library) where
  open l use {
    Json, parse, find, is_object, is_array, is_string, is_boolean, get_string, get_bool, elements,
  }

  -- A member that is a string, or a boolean; `none` also where it is missing.
  unfoldable pub string_value : Option Json → Option Text
  string_value none = none
  string_value (some j) = if is_string j then some (get_string j) else none

  unfoldable pub bool_value : Option Json → Option Bool
  bool_value none = none
  bool_value (some j) = if is_boolean j then some (get_bool j) else none

  unfoldable pub not_empty : Option Text → Option Text
  not_empty none = none
  not_empty (some s) = if is_empty s then none else some s

  unfoldable pub impression_value : Option Json → Expected Bool
  impression_value none = expected false
  impression_value (some j) =
      if is_boolean j
      then expected (get_bool j)
      else unexpected (codes "toggle.impressionData is not a boolean")

  -- The name of a variant that is enabled and has one that is not empty.
  unfoldable pub live_name : Option Text → Option Bool → Option Text
  live_name none enabled = none
  live_name (some name) none = none
  live_name (some name) (some enabled) = if is_empty name || not enabled then none else some name

  unfoldable pub make_payload : Option Text → Option Text → Option Payload
  make_payload none value = none
  make_payload (some type) none = none
  make_payload (some type) (some value) = some (record { type = type; value = value })

  unfoldable pub decode_payload : Option Json → Expected (Option Payload)
  unfolding string_value not_empty make_payload
  decode_payload none = expected none
  decode_payload (some p) =
      if is_object p
      then expected (
          make_payload (not_empty (string_value (find (codes "type") p)))
            (string_value (find (codes "value") p)))
      else unexpected (codes "toggle.variant.payload is not an object")

  unfoldable pub named_variant : Option Text → Option Json → Expected Variant
  unfolding decode_payload disabled_factory make_variant
  named_variant none payload = expected disabled_factory
  named_variant (some name) payload = do
    p ← decode_payload payload
    expected (make_variant name true p)

  unfoldable pub decode_variant : Option Json → Expected Variant
  unfolding string_value bool_value live_name named_variant
  decode_variant none = expected disabled_factory
  decode_variant (some v) =
      if is_object v
      then named_variant
          (live_name (string_value (find (codes "name") v)) (bool_value (find (codes "enabled") v)))
          (find (codes "payload") v)
      else unexpected (codes "toggle.variant is not an object")

  -- A disabled toggle takes no variant, whatever the entry says of one.
  unfoldable pub variant_if : Bool → Option Json → Expected Variant
  unfolding decode_variant
  variant_if false v = expected disabled_factory
  variant_if true v = decode_variant v

  unfoldable pub decode_toggle : Json → Expected Toggle
  unfolding impression_value bool_value string_value make_toggle
  decode_toggle item =
      if is_object item
      then (do
        name ←
            or_error (string_value (find (codes "name") item))
              (codes "toggle.name is missing or not a string")
        enabled ←
            or_error (bool_value (find (codes "enabled") item))
              (codes "toggle.enabled is missing or not a boolean")
        impression ← impression_value (find (codes "impressionData") item)
        variant ← variant_if enabled (find (codes "variant") item)
        expected (make_toggle name enabled impression variant))
      else unexpected (codes "toggle entry is not an object")

  unfoldable pub add_index : ℕ → Expected Toggle → Expected Toggle
  unfolding to_string
  add_index index (expected t) = expected t
  add_index index (unexpected e) =
      unexpected (codes "invalid toggle at index " ++ (to_string index ++ (codes ": " ++ e)))

  -- The loop over the array; `index` counts the entries before.
  unfoldable pub decode_entries : ℕ → List Json → Expected (List Toggle)
  unfolding add_index
  decode_entries index [] = expected []
  decode_entries index (item ∷ items) = do
    t ← add_index index (decode_toggle item)
    ts ← decode_entries (index + 1) items
    expected (t ∷ ts)

  unfoldable pub decode_toggles : Option Json → Expected ToggleSet
  unfolding decode_entries from_list
  decode_toggles none = unexpected (codes "missing toggles field")
  decode_toggles (some a) =
      if is_array a
      then (do ts ← decode_entries 0 (elements a); expected (from_list ts))
      else unexpected (codes "toggles field is not an array")

  unfoldable pub decode_root : Json → Expected ToggleSet
  unfolding decode_toggles
  decode_root root = decode_toggles (find (codes "toggles") root)

  unfoldable pub decode_client_features_response : Text → Expected ToggleSet
  unfolding decode_root
  decode_client_features_response text = elim (parse text) [
    | none ↦ unexpected (codes "input is not valid JSON")
    | some root ↦ decode_root root
  ]
