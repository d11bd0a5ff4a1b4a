-- ===== src/Json/RoundTrip.antt =====
-- `decodeClientFeaturesResponse` after `encodeClientFeaturesResponse`.
pub mod Entries
pub mod Decoded
pub mod Sets
pub mod Views
use unleash_cpp_sdk.Base.Expected.{expected}
use unleash_cpp_sdk.Base.{
  Bool-cases, Option, Text, ap, arith, codes, false, inl, inr, is_empty, none, refl, some, text_eq,
  text_eq_refl, true, ◌∙◌, ◌≡◌, ◌⊎◌,
}
use unleash_cpp_sdk.Domain.Variant.{Payload, Toggle, Variant, disabled_factory, make_variant}
use unleash_cpp_sdk.Json.Library.{CanSet, Laws, Library, on_null, on_set}
use unleash_cpp_sdk.Json.Decode.{decode_payload, decode_variant, live_name, named_variant}
use unleash_cpp_sdk.Json.Encode.{encode_payload, encode_variant, set_payload}

-- What the decoder can make of a variant: the disabled one, or an enabled one with a name and, if it
-- has a payload, a payload with a type.
abbrev pub HasType : Option Payload → Type 0
HasType none = Unit {0}
HasType (some p) = is_empty p.type ≡ false

pub record IsLive (v : Variant) : Type 0 where
  pub enabled : v.enabled ≡ true
  pub named : is_empty v.name ≡ false
  pub typed : HasType v.payload

abbrev pub IsDecodable : Toggle → Type 0
IsDecodable t = (t.variant ≡ disabled_factory) ⊎ ((t.enabled ≡ true) × IsLive t.variant)

module _ (l : Library) (laws : Laws l) where
  open l use {Json, find, is_object, of_string, of_bool, object, null, set}

  pub hit : (k : Text) (v o : Json) → CanSet l o → find k (set k v o) ≡ some v
  hit k v o c = laws.find-set k k v o c ∙ rw (text_eq_refl k)

  pub miss :
      (k j : Text) (v o : Json) → CanSet l o → text_eq k j ≡ false → find j (set k v o) ≡ find j o
  miss k j v o c e = laws.find-set k j v o c ∙ rw e

  set_payload-other :
      (k : Text) (p : Option Payload) (o : Json)
      → CanSet l o
      → text_eq (codes "payload") k ≡ false
      → find k (set_payload l p o) ≡ find k o
  unfolding set_payload
  set_payload-other k none o c e = refl
  set_payload-other k (some p) o c e = elim (Bool-cases (is_empty p.type)) [
    | inl h ↦ rw h
    | inr h ↦ rw h (miss (codes "payload") k (encode_payload l p) o c e)
  ]

  set_payload-is_object :
      (k : Text) (v o : Json) (p : Option Payload)
      → CanSet l o
      → is_object (set_payload l p (set k v o)) ≡ true
  unfolding set_payload
  set_payload-is_object k v o none c = laws.is_object-set k v o c
  set_payload-is_object k v o (some p) c = elim (Bool-cases (is_empty p.type)) [
    | inl h ↦ rw h (laws.is_object-set k v o c)
    | inr h ↦
        rw h (laws.is_object-set (codes "payload") (encode_payload l p) (set k v o) (on_set c))
  ]

  abbrev encoded_payload : Option Payload → Option Json
  encoded_payload none = none
  encoded_payload (some p) = some (encode_payload l p)

  set_payload_self :
      (p : Option Payload) (o : Json)
      → CanSet l o
      → HasType p
      → find (codes "payload") o ≡ none
      → find (codes "payload") (set_payload l p o) ≡ encoded_payload p
  unfolding set_payload
  set_payload_self none o c h e = e
  set_payload_self (some p) o c h e = rw h (hit (codes "payload") (encode_payload l p) o c)

  decode_payload-encode :
      (p : Option Payload) → HasType p → decode_payload l (encoded_payload p) ≡ expected p
  unfolding decode_payload encode_payload text_eq
  decode_payload-encode none h = refl
  decode_payload-encode (some p) h =
      let inner = set (codes "type") (of_string p.type) null in
      let c : CanSet l inner = on_set on_null in
      rw
        (
          laws.is_object-set (codes "value") (of_string p.value) inner c,
          miss (codes "value") (codes "type") (of_string p.value) inner c refl,
          hit (codes "type") (of_string p.type) null on_null,
          hit (codes "value") (of_string p.value) inner c,
        )
        (rw (
          laws.is_string-of_string p.type,
          laws.is_string-of_string p.value,
          laws.get_string-of_string p.type,
          laws.get_string-of_string p.value,
          h,
        ))

  -- The members of an encoded variant below its payload.
  variant_base : Variant → Json
  variant_base v =
      set (codes "enabled") (of_bool v.enabled) (set (codes "name") (of_string v.name) null)

  encode_variant-name :
      (v : Variant) → find (codes "name") (encode_variant l v) ≡ some (of_string v.name)
  unfolding encode_variant text_eq
  encode_variant-name v =
      set_payload-other (codes "name") v.payload _ (on_set (on_set on_null)) refl
      ∙ (miss (codes "enabled") (codes "name") (of_bool v.enabled) _ (on_set on_null) refl
          ∙ hit (codes "name") (of_string v.name) null on_null)

  encode_variant-enabled :
      (v : Variant) → find (codes "enabled") (encode_variant l v) ≡ some (of_bool v.enabled)
  unfolding encode_variant text_eq
  encode_variant-enabled v =
      set_payload-other (codes "enabled") v.payload _ (on_set (on_set on_null)) refl
      ∙ hit (codes "enabled") (of_bool v.enabled) _ (on_set on_null)

  encode_variant-payload :
      (v : Variant)
      → HasType v.payload
      → find (codes "payload") (encode_variant l v) ≡ encoded_payload v.payload
  unfolding encode_variant text_eq
  encode_variant-payload v h = set_payload_self v.payload _ (on_set (on_set on_null)) h (
      miss (codes "enabled") (codes "payload") (of_bool v.enabled) _ (on_set on_null) refl
      ∙ (miss (codes "name") (codes "payload") (of_string v.name) null on_null refl
          ∙ laws.find-null (codes "payload")))

  encode_variant-is_object : (v : Variant) → is_object (encode_variant l v) ≡ true
  unfolding encode_variant
  encode_variant-is_object v =
      set_payload-is_object (codes "enabled") (of_bool v.enabled) _ v.payload (on_set on_null)

  make_variant_self : (v : Variant) → v.enabled ≡ true → make_variant v.name true v.payload ≡ v
  unfolding make_variant
  make_variant_self v e = ground arith

  named_variant-some :
      (name : Text) (o : Option Json) (p : Option Payload)
      → decode_payload l o ≡ expected p
      → named_variant l (some name) o ≡ expected (make_variant name true p)
  unfolding named_variant
  named_variant-some name o p e = rw e

  live_name-live :
      (v : Variant) → IsLive v → live_name l (some v.name) (some v.enabled) ≡ some v.name
  unfolding live_name
  live_name-live v h = ground (arith, h.enabled, h.named)

  named_variant-live :
      (v : Variant)
      → IsLive v
      → named_variant l (live_name l (some v.name) (some v.enabled)) (encoded_payload v.payload)
        ≡ expected v
  named_variant-live v h = rw (live_name-live v h) (
      named_variant-some v.name (encoded_payload v.payload) v.payload
        (decode_payload-encode v.payload h.typed)
      ∙ ap expected (make_variant_self v h.enabled))

  -- What the decoder reads of an encoded variant before it comes to the payload.
  decode_variant-encode :
      (v : Variant)
      → decode_variant l (some (encode_variant l v))
        ≡ named_variant l
            (live_name l (some v.name) (some v.enabled))
            (find (codes "payload") (encode_variant l v))
  unfolding decode_variant
  decode_variant-encode v =
      rw (encode_variant-is_object v, encode_variant-name v, encode_variant-enabled v)
        (rw (
          laws.is_string-of_string v.name,
          laws.get_string-of_string v.name,
          laws.is_boolean-of_bool v.enabled,
          laws.get_bool-of_bool v.enabled,
        ))

  decode_variant-disabled :
      decode_variant l (some (encode_variant l disabled_factory)) ≡ expected disabled_factory
  decode_variant-disabled =
      decode_variant-encode disabled_factory
      ∙ unfold named_variant live_name disabled_factory in refl

  decode_variant-live :
      (v : Variant) → IsLive v → decode_variant l (some (encode_variant l v)) ≡ expected v
  decode_variant-live v h =
      rw (decode_variant-encode v, encode_variant-payload v h.typed) (named_variant-live v h)
