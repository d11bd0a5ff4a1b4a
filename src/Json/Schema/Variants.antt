-- ===== src/Json/Schema/Variants.antt =====
-- The values that denote strings, Booleans, payloads and variants are those that the decoder reads.
use unleash_cpp_sdk.Domain.Variant.{Payload, Variant, disabled_factory, make_variant}
use unleash_cpp_sdk.Base.Expected.{
  >>=-eq-expected, expected, expected-injective, unexpected≢expected,
}
use unleash_cpp_sdk.Base.{
  Bool, Bool-cases, Option, Option-cases, Text, [], ap, arith, codes, false, inl, inr, is_empty,
  none, refl, some, subst, sym, true, ◌∙◌, ◌∷◌, ◌≡◌,
}
use unleash_cpp_sdk.Json.Decode.{
  bool_value, decode_payload, decode_variant, live_name, make_payload, named_variant, not_empty,
  string_value,
}
use unleash_cpp_sdk.Json.Library.{Library}
use unleash_cpp_sdk.Json.Schema.{
  BoolOf, Filled, IsLive, PayloadOf, StringOf, VariantOf, bool_of, filled, live, no_payload,
  no_variant, not_live, string_of, unfilled,
}

module _ (l : Library) where
  open l use {
    Json, find, is_object, is_array, is_string, is_boolean, get_string, get_bool, elements,
  }

  pub StringOf-value : {o : Option Json} {s : Text} → StringOf l s o → string_value l o ≡ some s
  unfolding string_value
  StringOf-value (string_of h e) = rw (h, e)

  pub value-StringOf : (o : Option Json) (s : Text) → string_value l o ≡ some s → StringOf l s o
  unfolding string_value
  value-StringOf none s e = absurd (cc)
  value-StringOf (some j) s e = elim (Bool-cases (is_string j)) [
    | inl h ↦ string_of h (ground arith)
    | inr h ↦ absurd (ground arith)
  ]

  pub BoolOf-value : {o : Option Json} {b : Bool} → BoolOf l b o → bool_value l o ≡ some b
  unfolding bool_value
  BoolOf-value (bool_of h e) = rw (h, e)

  pub value-BoolOf : (o : Option Json) (b : Bool) → bool_value l o ≡ some b → BoolOf l b o
  unfolding bool_value
  value-BoolOf none b e = absurd (cc)
  value-BoolOf (some j) b e = elim (Bool-cases (is_boolean j)) [
    | inl h ↦ bool_of h (ground arith)
    | inr h ↦ absurd (ground arith)
  ]

  -- The payload of an object.
  payload_in : Json → Option Payload
  payload_in j =
      make_payload l (not_empty l (string_value l (find (codes "type") j)))
        (string_value l (find (codes "value") j))

  make_payload-filled :
      (x y : Option Text) (p : Payload)
      → make_payload l (not_empty l x) y ≡ some p
      → (x ≡ some p.type) × (is_empty p.type ≡ false) × (y ≡ some p.value)
  unfolding make_payload not_empty
  make_payload-filled none y p e = absurd (cc)
  make_payload-filled (some []) y p e = absurd (cc)
  make_payload-filled (some (c ∷ s)) none p e = absurd (cc)
  make_payload-filled (some (c ∷ s)) (some v) p e =
      let q : record { type = c ∷ s; value = v } ≡ p = cc in
      (
        ap (λ (r : Payload). some r.type) q,
        subst (λ (r : Payload). is_empty r.type ≡ false) q refl,
        ap (λ (r : Payload). some r.value) q,
      )

  payload_in-Filled : (j : Json) (p : Payload) → payload_in j ≡ some p → Filled l p.type p.value j
  unfolding payload_in
  payload_in-Filled j p e =
      let (t, n, v) = make_payload-filled _ _ p e in (value-StringOf _ _ t, n, value-StringOf _ _ v)

  Filled-payload_in :
      (j : Json) {type value : Text}
      → Filled l type value j
      → payload_in j ≡ some (record { type = type; value = value })
  unfolding payload_in make_payload not_empty
  Filled-payload_in j (t, e, v) = rw (StringOf-value t, StringOf-value v, e)

  decode_payload-object :
      (j : Json) → is_object j ≡ true → decode_payload l (some j) ≡ expected (payload_in j)
  unfolding decode_payload payload_in
  decode_payload-object j h = rw h

  PayloadOf-decode :
      {o : Option Json} {p : Option Payload} → PayloadOf l o p → decode_payload l o ≡ expected p
  PayloadOf-decode no_payload = unfold decode_payload in refl
  PayloadOf-decode (filled {j} h f) =
      decode_payload-object j h ∙ ap expected (Filled-payload_in j f)
  PayloadOf-decode (unfilled {j} h nothing) =
      decode_payload-object j h ∙ elim (Option-cases (payload_in j)) [
        | inl e ↦ ap expected e
        | inr (p, e) ↦ absurd (nothing p.type p.value (payload_in-Filled j p e))
      ]

  object_of_payload :
      (j : Json) (p : Option Payload) → decode_payload l (some j) ≡ expected p → is_object j ≡ true
  unfolding decode_payload
  object_of_payload j p e = elim (Bool-cases (is_object j)) [
    | inl h ↦ h
    | inr h ↦ absurd (unexpected≢expected (rw h at e))
  ]

  decode-PayloadOf :
      (o : Option Json) (p : Option Payload) → decode_payload l o ≡ expected p → PayloadOf l o p
  decode-PayloadOf none p e =
      let q : none ≡ p = expected-injective (unfold decode_payload in e) in
      subst (PayloadOf l none) q no_payload
  decode-PayloadOf (some j) p e =
      let h = object_of_payload j p e in
      let q : payload_in j ≡ p = expected-injective (sym (decode_payload-object j h) ∙ e) in
      elim (Option-cases (payload_in j)) [
        | inl n ↦
            subst (PayloadOf l (some j)) (sym n ∙ q)
              (unfilled h (λ type value f. absurd (let k = Filled-payload_in j f in cc)))
        | inr (r, n) ↦ subst (PayloadOf l (some j)) (sym n ∙ q) (filled h (payload_in-Filled j r n))
      ]

  -- The name of a variant that counts.
  name_in : Json → Option Text
  name_in j =
      live_name l (string_value l (find (codes "name") j)) (bool_value l (find (codes "enabled") j))

  live_name-live :
      (x : Option Text) (y : Option Bool) (n : Text)
      → live_name l x y ≡ some n
      → (x ≡ some n) × (is_empty n ≡ false) × (y ≡ some true)
  unfolding live_name
  live_name-live none y n e = absurd (cc)
  live_name-live (some s) none n e = absurd (cc)
  live_name-live (some []) (some b) n e = absurd (cc)
  live_name-live (some (c ∷ s)) (some false) n e = absurd (cc)
  live_name-live (some (c ∷ s)) (some true) n e =
      let q : c ∷ s ≡ n = cc in (e, subst (λ (m : Text). is_empty m ≡ false) q refl, refl)

  name_in-IsLive : (j : Json) (n : Text) → name_in j ≡ some n → IsLive l n j
  unfolding name_in
  name_in-IsLive j n e =
      let (x, m, y) = live_name-live _ _ n e in (value-StringOf _ _ x, m, value-BoolOf _ _ y)

  IsLive-name_in : (j : Json) {n : Text} → IsLive l n j → name_in j ≡ some n
  unfolding name_in live_name
  IsLive-name_in j (x, m, y) = rw (StringOf-value x, BoolOf-value y, m)

  decode_variant-object :
      (j : Json)
      → is_object j ≡ true
      → decode_variant l (some j) ≡ named_variant l (name_in j) (find (codes "payload") j)
  unfolding decode_variant name_in
  decode_variant-object j h = rw h

  named_variant-some :
      (n : Text) (o : Option Json) {p : Option Payload}
      → decode_payload l o ≡ expected p
      → named_variant l (some n) o ≡ expected (make_variant n true p)
  unfolding named_variant
  named_variant-some n o e = rw e

  pub VariantOf-decode :
      {o : Option Json} {v : Variant} → VariantOf l o v → decode_variant l o ≡ expected v
  unfolding decode_variant named_variant
  VariantOf-decode (no_variant e) = ap expected (sym e)
  VariantOf-decode (live {j} {name} h i p e) =
      decode_variant-object j h
      ∙ (rw (IsLive-name_in j i)
            (named_variant-some name (find (codes "payload") j) (PayloadOf-decode p))
          ∙ ap expected (sym e))
  VariantOf-decode (not_live {j} {v} h nothing e) =
      decode_variant-object j h ∙ elim (Option-cases (name_in j)) [
        | inl n ↦ rw (n, e)
        | inr (n, q) ↦ absurd (nothing n (name_in-IsLive j n q))
      ]

  object_of_variant :
      (j : Json) (v : Variant) → decode_variant l (some j) ≡ expected v → is_object j ≡ true
  unfolding decode_variant
  object_of_variant j v e = elim (Bool-cases (is_object j)) [
    | inl h ↦ h
    | inr h ↦ absurd (unexpected≢expected (rw h at e))
  ]

  named-VariantOf :
      (j : Json) (o : Option Text) (v : Variant)
      → is_object j ≡ true
      → name_in j ≡ o
      → named_variant l o (find (codes "payload") j) ≡ expected v
      → VariantOf l (some j) v
  unfolding named_variant
  named-VariantOf j none v h n e =
      not_live h (λ name i. absurd (let k = IsLive-name_in j i in cc)) (sym (expected-injective e))
  named-VariantOf j (some name) v h n e =
      let (p, q, r) = >>=-eq-expected (decode_payload l (find (codes "payload") j)) _ e in
      live h (name_in-IsLive j name n) (decode-PayloadOf _ p q) (sym (expected-injective r))

  pub decode-VariantOf :
      (o : Option Json) (v : Variant) → decode_variant l o ≡ expected v → VariantOf l o v
  decode-VariantOf none v e =
      let q : disabled_factory ≡ v = expected-injective (unfold decode_variant in e) in
      no_variant (sym q)
  decode-VariantOf (some j) v e =
      let h = object_of_variant j v e in
      named-VariantOf j (name_in j) v h refl (sym (decode_variant-object j h) ∙ e)
