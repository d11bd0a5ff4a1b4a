-- ===== src/Json/RoundTrip/Decoded.antt =====
-- What the decoder lets through.
use unleash_cpp_sdk.Base.{
  Bool, Bool-cases, Option, Text, arith, codes, false, inl, inr, is_empty, none, refl, some, subst,
  sym, true, ◌≡◌, ◌⊎◌,
}
use unleash_cpp_sdk.Base.Expected.{
  >>=-eq-expected, Expected, expected, expected-injective, or_error, unexpected,
  unexpected≢expected, ◌>>=◌,
}
use unleash_cpp_sdk.Domain.Variant.{
  Payload, Toggle, Variant, disabled_factory, make_toggle, make_variant,
}
use unleash_cpp_sdk.Json.Library.{Library}
use unleash_cpp_sdk.Json.Decode.{
  bool_value, decode_payload, decode_toggle, decode_variant, impression_value, live_name,
  make_payload, named_variant, not_empty, string_value, variant_if,
}
use unleash_cpp_sdk.Json.RoundTrip.{HasType, IsDecodable, IsLive}

module _ (l : Library) where
  open l use {Json, is_object, find}

  -- The texts that the decoder reads of a payload.
  abbrev not_empty_text : Json → Option Text
  not_empty_text j = string_value l (find (codes "type") j)

  abbrev value_text : Json → Option Text
  value_text j = string_value l (find (codes "value") j)

  make_payload-HasType : (o value : Option Text) → HasType (make_payload l (not_empty l o) value)
  unfolding make_payload not_empty
  make_payload-HasType none value = tt
  make_payload-HasType (some type) none = ground arith
  make_payload-HasType (some type) (some value) = ground arith

  decode_payload-HasType :
      (o : Option Json) (p : Option Payload) → decode_payload l o ≡ expected p → HasType p
  unfolding decode_payload
  decode_payload-HasType none p e = subst HasType {x = none} (expected-injective e) tt
  decode_payload-HasType (some j) p e = elim (Bool-cases (is_object j)) [
    | inl h ↦
        subst HasType (expected-injective (rw h at e))
          (make_payload-HasType (not_empty_text j) (value_text j))
    | inr h ↦ absurd (unexpected≢expected (rw h at e))
  ]

  live_name-not_empty :
      (o : Option Text) (b : Option Bool) (name : Text)
      → live_name l o b ≡ some name
      → is_empty name ≡ false
  unfolding live_name
  live_name-not_empty none b name e = cc
  live_name-not_empty (some s) none name e = cc
  live_name-not_empty (some s) (some b) name e = ground arith

  -- What the decoder makes of a variant.
  abbrev IsReadable : Variant → Type 0
  IsReadable v = (v ≡ disabled_factory) ⊎ IsLive v

  make_variant-IsLive :
      (name : Text) (p : Option Payload)
      → is_empty name ≡ false
      → HasType p
      → IsLive (make_variant name true p)
  unfolding make_variant
  make_variant-IsLive name none n h = record { enabled = refl; named = n; typed = tt }
  make_variant-IsLive name (some p) n h = record { enabled = refl; named = n; typed = h }

  named_variant-IsReadable :
      (o : Option Text) (p : Option Json) (v : Variant)
      → ((name : Text) → o ≡ some name → is_empty name ≡ false)
      → named_variant l o p ≡ expected v
      → IsReadable v
  named_variant-IsReadable none p v n e = unfold named_variant in inl (sym (expected-injective e))
  named_variant-IsReadable (some name) p v n e =
      unfold named_variant in
      (let (q, d, f) =
          >>=-eq-expected (decode_payload l p) (λ q. expected (make_variant name true q)) e in
        inr (
          subst IsLive (expected-injective f)
            (make_variant-IsLive name q (n name refl) (decode_payload-HasType p q d))))

  decode_variant-IsReadable :
      (o : Option Json) (v : Variant) → decode_variant l o ≡ expected v → IsReadable v
  unfolding decode_variant
  decode_variant-IsReadable none v e = inl (sym (expected-injective e))
  decode_variant-IsReadable (some j) v e = elim (Bool-cases (is_object j)) [
    | inl h ↦ named_variant-IsReadable _ _ v (λ name q. live_name-not_empty _ _ name q) (rw h at e)
    | inr h ↦ absurd (unexpected≢expected (rw h at e))
  ]

  variant_if-IsReadable :
      (b : Bool) (o : Option Json) (v : Variant)
      → variant_if l b o ≡ expected v
      → (v ≡ disabled_factory) ⊎ ((b ≡ true) × IsLive v)
  variant_if-IsReadable false o v e = unfold variant_if in inl (sym (expected-injective e))
  variant_if-IsReadable true o v e =
      unfold variant_if in
      elim (decode_variant-IsReadable o v e) [ inl d ↦ inl d | inr d ↦ inr (refl, d) ]

  -- The chain of the four members, with any results.
  assembled-IsDecodable :
      (n : Expected Text) (b i : Expected Bool) (f : Bool → Expected Variant) (t : Toggle)
      → ((c : Bool) (v : Variant)
          → f c ≡ expected v
          → (v ≡ disabled_factory) ⊎ ((c ≡ true) × IsLive v))
      → (do
        name ← n
        enabled ← b
        impression ← i
        variant ← f enabled
        expected (make_toggle name enabled impression variant))
        ≡ expected t
      → IsDecodable t
  assembled-IsDecodable (unexpected s) b i f t r e = absurd (unexpected≢expected e)
  assembled-IsDecodable (expected n) (unexpected s) i f t r e = absurd (unexpected≢expected e)
  assembled-IsDecodable (expected n) (expected b) (unexpected s) f t r e =
      absurd (unexpected≢expected e)
  assembled-IsDecodable (expected n) (expected b) (expected i) f t r e =
      let (v, d, g) = >>=-eq-expected (f b) (λ v. expected (make_toggle n b i v)) e in
      subst IsDecodable (expected-injective g) (unfold make_toggle in r b v d)

  -- Whatever JSON value an entry is: if it is decoded to a toggle, its variant is the disabled one,
  -- or the toggle is enabled and the variant too, with a name and, if there is a payload, its type.
  pub decode_toggle-IsDecodable :
      (item : Json) (t : Toggle) → decode_toggle l item ≡ expected t → IsDecodable t
  unfolding decode_toggle
  decode_toggle-IsDecodable item t e = elim (Bool-cases (is_object item)) [
    | inl h ↦
        assembled-IsDecodable (or_error (string_value l (find (codes "name") item)) _)
          (or_error (bool_value l (find (codes "enabled") item)) _)
          (impression_value l (find (codes "impressionData") item))
          (λ c. variant_if l c (find (codes "variant") item)) t
          (λ c v d. variant_if-IsReadable c _ v d) (rw h at e)
    | inr h ↦ absurd (unexpected≢expected (rw h at e))
  ]
