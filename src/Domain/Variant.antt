-- ===== src/Domain/Variant.antt =====
-- variant.hpp, variant.cpp, toggle.hpp and toggle.cpp: a variant with its payload, and a toggle.
pub mod Getters
use unleash_cpp_sdk.Base.{
  Bool, Option, Text, arith, codes, false, if◌then◌else◌, is_empty, is_some, none, not, some,
  text_eq, text_eq_iff, true, ◌&&◌, ◌↔◌, ◌≡◌,
}

pub record Payload : Type 0 where
  pub type : Text
  pub value : Text

unfoldable pub payload_empty : Payload → Bool
payload_empty p = is_empty p.type

pub record Variant : Type 0 where
  pub name : Text
  pub enabled : Bool
  pub payload : Option Payload

-- The constructor drops the payload of a disabled variant.
unfoldable pub make_variant : Text → Bool → Option Payload → Variant
make_variant name enabled payload = record {
  name = name;
  enabled = enabled;
  payload = if enabled && is_some payload then payload else none;
}

unfoldable pub has_payload : Variant → Bool
has_payload v = is_some v.payload

unfoldable pub disabled_factory : Variant
unfolding make_variant
disabled_factory = make_variant (codes "disabled") false none

unfoldable pub payload_eq : Payload → Payload → Bool
payload_eq a b = text_eq a.type b.type && text_eq a.value b.value

unfoldable pub bool_eq : Bool → Bool → Bool
bool_eq true b = b
bool_eq false b = not b

-- `==` of two `std::optional`s.
unfoldable pub option_payload_eq : Option Payload → Option Payload → Bool
unfolding payload_eq
option_payload_eq none none = true
option_payload_eq none (some b) = false
option_payload_eq (some a) none = false
option_payload_eq (some a) (some b) = payload_eq a b

unfoldable pub variant_eq : Variant → Variant → Bool
unfolding option_payload_eq bool_eq
variant_eq a b =
    text_eq a.name b.name && (bool_eq a.enabled b.enabled && option_payload_eq a.payload b.payload)

pub record Toggle : Type 0 where
  pub name : Text
  pub enabled : Bool
  pub variant : Variant
  pub impression_data : Bool

unfoldable pub make_toggle : Text → Bool → Bool → Variant → Toggle
make_toggle name enabled impression_data variant = record {
  name = name;
  enabled = enabled;
  variant = variant;
  impression_data = impression_data;
}

-- A payload is kept only by an enabled variant.
abbrev pub IsConsistent : Variant → Type 0
IsConsistent v = v.enabled ≡ false → v.payload ≡ none

pub make_variant-IsConsistent :
    (name : Text) (enabled : Bool) (p : Option Payload) → IsConsistent (make_variant name enabled p)
unfolding make_variant
make_variant-IsConsistent name enabled p h = ground arith

payload_eq_iff : (a b : Payload) → (payload_eq a b ≡ true) ↔ (a ≡ b)
unfolding payload_eq
payload_eq_iff a b = ground (arith, text_eq_iff a.type b.type, text_eq_iff a.value b.value)

option_payload_eq_iff : (a b : Option Payload) → (option_payload_eq a b ≡ true) ↔ (a ≡ b)
unfolding option_payload_eq
option_payload_eq_iff none none = ground arith
option_payload_eq_iff none (some b) = ground arith
option_payload_eq_iff (some a) none = ground arith
option_payload_eq_iff (some a) (some b) = ground (arith, payload_eq_iff a b)

bool_eq_iff : (a b : Bool) → (bool_eq a b ≡ true) ↔ (a ≡ b)
unfolding bool_eq
bool_eq_iff a b = ground arith

-- `operator==` of two variants holds exactly when name, state and payload are all the same.
pub variant_eq_iff : (a b : Variant) → (variant_eq a b ≡ true) ↔ (a ≡ b)
unfolding variant_eq
variant_eq_iff a b = ground (
  arith,
  text_eq_iff a.name b.name,
  bool_eq_iff a.enabled b.enabled,
  option_payload_eq_iff a.payload b.payload,
)
