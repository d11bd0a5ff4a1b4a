-- ===== src/Json/Schema/Exact.antt =====
-- The decoder reads the documents of this type and no others.
use unleash_cpp_sdk.Domain.Toggles.{ToggleSet, from_list}
use unleash_cpp_sdk.Json.Schema.Variants.{
  BoolOf-value, StringOf-value, VariantOf-decode, decode-VariantOf, value-BoolOf, value-StringOf,
}
use unleash_cpp_sdk.Domain.Variant.{Toggle, Variant, make_toggle}
use unleash_cpp_sdk.Json.Schema.{
  EntriesOf, HasBool, HasString, ImpressionOf, ResponseOf, ToggleOf, bool_of, entry, impression,
  no_entry, no_impression, off, on, response,
}
use unleash_cpp_sdk.Json.Decode.{
  add_index, decode_client_features_response, decode_entries, decode_root, decode_toggle,
  decode_toggles, impression_value, variant_if,
}
use unleash_cpp_sdk.Base.Expected.{
  >>=-eq-expected, Expected, expected, expected-injective, or_error, unexpected,
  unexpected≢expected,
}
use unleash_cpp_sdk.Base.{
  Bool, Bool-cases, List, Option, Option-cases, Text, [], ap, codes, false, inl, inr, none, refl,
  some, subst, sym, true, ℕ, ◌+◌, ◌↔◌, ◌∙◌, ◌∷◌, ◌≡◌,
}
use unleash_cpp_sdk.Json.Library.{Library}

module _ (l : Library) where
  open l use {
    Json, find, is_object, is_array, is_string, is_boolean, get_string, get_bool, elements, parse,
  }

  ImpressionOf-value :
      {o : Option Json} {b : Bool} → ImpressionOf l o b → impression_value l o ≡ expected b
  unfolding impression_value
  ImpressionOf-value no_impression = refl
  ImpressionOf-value (impression (bool_of h e)) = rw (h, e)

  value-ImpressionOf :
      (o : Option Json) (b : Bool) → impression_value l o ≡ expected b → ImpressionOf l o b
  unfolding impression_value
  value-ImpressionOf none true e = absurd (cc)
  value-ImpressionOf none false e = no_impression
  value-ImpressionOf (some j) b e = elim (Bool-cases (is_boolean j)) [
    | inl h ↦ impression (bool_of h (expected-injective (rw h at e)))
    | inr h ↦ absurd (unexpected≢expected (rw h at e))
  ]

  or_error-some :
      {A : Type 0} (o : Option A) (e : Text) {a : A} → or_error o e ≡ expected a → o ≡ some a
  or_error-some none e h = absurd (unexpected≢expected h)
  or_error-some (some b) e h = ap some (expected-injective h)

  ToggleOf-decode : {j : Json} {t : Toggle} → ToggleOf l j t → decode_toggle l j ≡ expected t
  unfolding decode_toggle variant_if
  ToggleOf-decode (on h n b i v e) =
      rw (h, StringOf-value l n, BoolOf-value l b, ImpressionOf-value i, VariantOf-decode l v, e)
  ToggleOf-decode (off h n b i e) =
      rw (h, StringOf-value l n, BoolOf-value l b, ImpressionOf-value i, e)

  switched-ToggleOf :
      (j : Json) (t : Toggle) (name : Text) (b i : Bool) (v : Variant)
      → is_object j ≡ true
      → HasString l (codes "name") name j
      → HasBool l (codes "enabled") b j
      → ImpressionOf l (find (codes "impressionData") j) i
      → variant_if l b (find (codes "variant") j) ≡ expected v
      → t ≡ make_toggle name b i v
      → ToggleOf l j t
  unfolding variant_if
  switched-ToggleOf j t name true i v h n b m d e = on h n b m (decode-VariantOf l _ _ d) e
  switched-ToggleOf j t name false i v h n b m d e =
      off h n b m (e ∙ ap (make_toggle name false i) (sym (expected-injective d)))

  decode-ToggleOf : (j : Json) (t : Toggle) → decode_toggle l j ≡ expected t → ToggleOf l j t
  unfolding decode_toggle
  decode-ToggleOf j t e = elim (Bool-cases (is_object j)) [
    | inr h ↦ absurd (unexpected≢expected (rw h at e))
    | inl h ↦
        let (name, n, e₁) = >>=-eq-expected (or_error _ _) _ (rw h at e) in
        let (b, m, e₂) = >>=-eq-expected (or_error _ _) _ e₁ in
        let (i, k, e₃) = >>=-eq-expected (impression_value l _) _ e₂ in
        let (v, d, e₄) = >>=-eq-expected (variant_if l b _) _ e₃ in
        switched-ToggleOf j t name b i v h (value-StringOf l _ _ (or_error-some _ _ n))
          (value-BoolOf l _ _ (or_error-some _ _ m)) (value-ImpressionOf _ _ k) d
          (sym (expected-injective e₄))
  ]

  add_index-expected :
      (n : ℕ) (e : Expected Toggle) {t : Toggle} → add_index l n e ≡ expected t → e ≡ expected t
  unfolding add_index
  add_index-expected n (expected t) h = h
  add_index-expected n (unexpected s) h = absurd (unexpected≢expected h)

  EntriesOf-decode :
      (n : ℕ) {js : List Json} {ts : List Toggle}
      → EntriesOf l js ts
      → decode_entries l n js ≡ expected ts
  unfolding decode_entries add_index
  EntriesOf-decode n no_entry = refl
  EntriesOf-decode n (entry t ts) = rw (ToggleOf-decode t, EntriesOf-decode (n + 1) ts)

  decode-EntriesOf :
      (n : ℕ) (js : List Json) (ts : List Toggle)
      → decode_entries l n js ≡ expected ts
      → EntriesOf l js ts
  unfolding decode_entries
  decode-EntriesOf n [] [] e = no_entry
  decode-EntriesOf n [] (t ∷ ts) e = absurd (let k = expected-injective e in cc)
  decode-EntriesOf n (j ∷ js) ts e =
      let (t, p, e₁) = >>=-eq-expected (add_index l n _) _ e in
      let (us, q, e₂) = >>=-eq-expected (decode_entries l (n + 1) js) _ e₁ in
      subst (EntriesOf l (j ∷ js)) (expected-injective e₂)
        (entry (decode-ToggleOf j t (add_index-expected n _ p)) (decode-EntriesOf (n + 1) js us q))

  ResponseOf-decode :
      {root : Json} {ts : List Toggle}
      → ResponseOf l root ts
      → decode_root l root ≡ expected (from_list ts)
  unfolding decode_root decode_toggles
  ResponseOf-decode (response f a es) = rw (f, a, EntriesOf-decode 0 es)

  decode-ResponseOf :
      (root : Json) (set : ToggleSet)
      → decode_root l root ≡ expected set
      → (ts : List Toggle) × ResponseOf l root ts × (set ≡ from_list ts)
  unfolding decode_root decode_toggles
  decode-ResponseOf root set e = elim (Option-cases (find (codes "toggles") root)) [
    | inl f ↦ absurd (unexpected≢expected (rw f at e))
    | inr (a, f) ↦ elim (Bool-cases (is_array a)) [
      | inr h ↦ absurd (unexpected≢expected (rw (f, h) at e))
      | inl h ↦
          let (ts, p, q) = >>=-eq-expected (decode_entries l 0 (elements a)) _ (rw (f, h) at e) in
          (ts, response f h (decode-EntriesOf 0 (elements a) ts p), sym (expected-injective q))
    ]
  ]

  -- The decoder accepts exactly the texts of this type: it gives a set if and only if the text is parsed to
  -- a value that denotes a response, and the set is the one of the toggles that the response denotes. With
  -- any other text it gives an error.
  pub decode-ResponseOf_iff :
      (text : Text) (set : ToggleSet)
      → (decode_client_features_response l text ≡ expected set) ↔ (
          (root : Json) × (ts : List Toggle) × (parse text ≡ some root)
          × ResponseOf l root ts
          × (set ≡ from_list ts))
  unfolding decode_client_features_response
  decode-ResponseOf_iff text set = (
    λ e. elim (Option-cases (parse text)) [
      | inl p ↦ absurd (unexpected≢expected (rw (p, decode_client_features_response) at e))
      | inr (root, p) ↦
          let (ts, r, q) =
            decode-ResponseOf root set (rw (p, decode_client_features_response) at e) in
          (root, ts, p, r, q)
    ],
    λ (root, ts, p, r, q).
        rw (p, decode_client_features_response) (ResponseOf-decode r ∙ ap expected (sym q)),
  )
