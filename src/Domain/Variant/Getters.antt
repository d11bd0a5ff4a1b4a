-- ===== src/Domain/Variant/Getters.antt =====
-- The getters of payloads, variants and toggles, on what the constructors make.
use unleash_cpp_sdk.Base.{
  Bool, Option, Text, false, if◌then◌else◌, is_some, none, refl, some, true, ◌&&◌, ◌≡◌,
}
use unleash_cpp_sdk.Domain.Variant.{Payload, Toggle, Variant, has_payload, make_variant}

unfoldable pub get_type : Payload → Text
get_type p = p.type

unfoldable pub get_value : Payload → Text
get_value p = p.value

unfoldable pub get_variant_name : Variant → Text
get_variant_name v = v.name

unfoldable pub get_variant_enabled : Variant → Bool
get_variant_enabled v = v.enabled

unfoldable pub get_payload : Variant → Option Payload
get_payload v = v.payload

unfoldable pub get_name : Toggle → Text
get_name t = t.name

unfoldable pub get_enabled : Toggle → Bool
get_enabled t = t.enabled

unfoldable pub get_variant_of : Toggle → Variant
get_variant_of t = t.variant

unfoldable pub get_impression_data : Toggle → Bool
get_impression_data t = t.impression_data

-- A variant has the payload that it was given exactly if it is enabled.
pub make_variant-getters :
    (name : Text) (enabled : Bool) (p : Option Payload)
    → (get_variant_name (make_variant name enabled p) ≡ name)
      × (get_variant_enabled (make_variant name enabled p) ≡ enabled)
      × (get_payload (make_variant name enabled p) ≡ (if enabled then p else none))
      × (has_payload (make_variant name enabled p) ≡ (enabled && is_some p))
unfolding get_variant_name get_variant_enabled get_payload has_payload make_variant
make_variant-getters name true none = (refl, refl, refl, refl)
make_variant-getters name true (some p) = (refl, refl, refl, refl)
make_variant-getters name false p = (refl, refl, refl, refl)
