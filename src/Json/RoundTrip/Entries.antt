-- ===== src/Json/RoundTrip/Entries.antt =====
-- The round trip of a toggle, of a set of toggles, and of the text of a response.
use unleash_cpp_sdk.Base.{
  Bool, Dict, List, Text, [], ap, codes, false, inl, inr, lookup, refl, some, subst, sym, text_eq,
  true, ℕ, ◌+◌, ◌∙◌, ◌∷◌, ◌≡◌,
}
use unleash_cpp_sdk.Base.Expected.{expected}
use unleash_cpp_sdk.Domain.Variant.{Toggle, Variant, disabled_factory}
use unleash_cpp_sdk.Json.Library.{CanSet, Laws, Library, on_null, on_set}
use unleash_cpp_sdk.Json.Decode.{
  decode_client_features_response, decode_entries, decode_root, decode_toggle, variant_if,
}
use unleash_cpp_sdk.Json.Encode.{
  encode_client_features_response, encode_entries, encode_root, encode_toggle, encode_variant,
}
use unleash_cpp_sdk.Domain.Toggles.{
  ToggleSet, find-from_list, find-lookup, first_named, from_list, find as find_toggle,
}
use unleash_cpp_sdk.Json.RoundTrip.{
  IsDecodable, IsLive, decode_variant-disabled, decode_variant-live, hit, miss,
}

-- The keys are the names of the toggles, and the decoder can make each toggle.
abbrev pub AreEntries : Dict Toggle → Type 0
AreEntries [] = Unit {0}
AreEntries ((k, t) ∷ m) = (t.name ≡ k) × IsDecodable t × AreEntries m

abbrev pub values : Dict Toggle → List Toggle
values [] = []
values ((k, t) ∷ m) = t ∷ values m

module _ (l : Library) (laws : Laws l) where
  open l use {
    Json, find, is_object, is_array, elements, dump, parse, of_string, of_bool, of_list, null, set,
  }

  -- The members of an encoded toggle but the last.
  encode_toggle_members :
      (t : Toggle)
      → (find (codes "name") (encode_toggle l t) ≡ some (of_string t.name))
        × (find (codes "enabled") (encode_toggle l t) ≡ some (of_bool t.enabled))
        × (find (codes "impressionData") (encode_toggle l t) ≡ some (of_bool t.impression_data))
        × (find (codes "variant") (encode_toggle l t) ≡ some (encode_variant l t.variant))
        × (is_object (encode_toggle l t) ≡ true)
  unfolding encode_toggle text_eq
  encode_toggle_members t =
      let c₀ : CanSet l null = on_null in
      let o₁ = set (codes "name") (of_string t.name) null in
      let c₁ : CanSet l o₁ = on_set c₀ in
      let o₂ = set (codes "enabled") (of_bool t.enabled) o₁ in
      let c₂ : CanSet l o₂ = on_set c₁ in
      let o₃ = set (codes "impressionData") (of_bool t.impression_data) o₂ in
      let c₃ : CanSet l o₃ = on_set c₂ in
      let v = encode_variant l t.variant in
      (
        miss l laws (codes "variant") (codes "name") v o₃ c₃ refl
            ∙ (miss l laws (codes "impressionData") (codes "name") (of_bool t.impression_data) o₂ c₂
                  refl
                ∙ (miss l laws (codes "enabled") (codes "name") (of_bool t.enabled) o₁ c₁ refl
                    ∙ hit l laws (codes "name") (of_string t.name) null c₀)),
        miss l laws (codes "variant") (codes "enabled") v o₃ c₃ refl
            ∙ (miss l laws (codes "impressionData") (codes "enabled") (of_bool t.impression_data) o₂
                  c₂ refl
                ∙ hit l laws (codes "enabled") (of_bool t.enabled) o₁ c₁),
        miss l laws (codes "variant") (codes "impressionData") v o₃ c₃ refl
            ∙ hit l laws (codes "impressionData") (of_bool t.impression_data) o₂ c₂,
        hit l laws (codes "variant") v o₃ c₃,
        laws.is_object-set (codes "variant") v o₃ c₃,
      )

  variant_if-disabled :
      (b : Bool) (v : Variant)
      → v ≡ disabled_factory
      → variant_if l b (some (encode_variant l v)) ≡ expected v
  variant_if-disabled false v e = unfold variant_if in ap expected (sym e)
  variant_if-disabled true v e =
      subst (λ w. variant_if l true (some (encode_variant l w)) ≡ expected w) (sym e)
        (unfold variant_if in decode_variant-disabled l laws)

  variant_if-live :
      (b : Bool) (v : Variant)
      → b ≡ true
      → IsLive v
      → variant_if l b (some (encode_variant l v)) ≡ expected v
  variant_if-live false v e h = cc
  variant_if-live true v e h = unfold variant_if in decode_variant-live l laws v h

  decode_variant-encode_variant :
      (t : Toggle)
      → IsDecodable t
      → variant_if l t.enabled (some (encode_variant l t.variant)) ≡ expected t.variant
  decode_variant-encode_variant t (inl e) = variant_if-disabled t.enabled t.variant e
  decode_variant-encode_variant t (inr (e, h)) = variant_if-live t.enabled t.variant e h

  -- A toggle that the decoder can make at all is decoded from its encoding unchanged.
  pub decode_toggle-encode_toggle :
      (t : Toggle) → IsDecodable t → decode_toggle l (encode_toggle l t) ≡ expected t
  unfolding decode_toggle
  decode_toggle-encode_toggle t h =
      let m = encode_toggle_members t in
      rw (m.4, m.0, m.1, m.2, m.3)
        (rw
          (
            laws.is_string-of_string t.name,
            laws.get_string-of_string t.name,
            laws.is_boolean-of_bool t.enabled,
            laws.get_bool-of_bool t.enabled,
            laws.is_boolean-of_bool t.impression_data,
            laws.get_bool-of_bool t.impression_data,
          )
          (rw (decode_variant-encode_variant t h)))

  decode_entries-cons :
      (i : ℕ) (item : Json) (items : List Json) (t : Toggle) (ts : List Toggle)
      → decode_toggle l item ≡ expected t
      → decode_entries l (i + 1) items ≡ expected ts
      → decode_entries l i (item ∷ items) ≡ expected (t ∷ ts)
  unfolding decode_entries
  decode_entries-cons i item items t ts e f = rw (e, f)

  decode_entries-encode_entries :
      (i : ℕ) (m : Dict Toggle)
      → AreEntries m
      → decode_entries l i (encode_entries l m) ≡ expected (values m)
  unfolding encode_entries
  decode_entries-encode_entries i [] h = unfold decode_entries in refl
  decode_entries-encode_entries i ((k, t) ∷ m) h =
      decode_entries-cons i (encode_toggle l t) (encode_entries l m) t (values m)
        (decode_toggle-encode_toggle t h.1) (decode_entries-encode_entries (i + 1) m h.2)

  first_named-values :
      (k : Text) (m : Dict Toggle) → AreEntries m → first_named k (values m) ≡ lookup k m
  unfolding first_named lookup
  first_named-values k [] h = refl
  first_named-values k ((j, t) ∷ m) h = rw (h.0, first_named-values k m h.2)

  decode_root-encode_root :
      (s : ToggleSet)
      → AreEntries s.toggles
      → decode_root l (encode_root l s) ≡ expected (from_list (values s.toggles))
  unfolding decode_root encode_root
  decode_root-encode_root s h =
      let items = encode_entries l s.toggles in
      rw (
        hit l laws (codes "toggles") (of_list items) null on_null,
        laws.is_array-of_list items,
        laws.elements-of_list items,
        decode_entries-encode_entries 0 s.toggles h,
      )

  decode_parsed :
      (text : Text) (root : Json)
      → parse text ≡ some root
      → decode_client_features_response l text ≡ decode_root l root
  unfolding decode_client_features_response
  decode_parsed text root p = rw (p, decode_client_features_response)

  -- A set of toggles whose entries the decoder can make, written out and read back, gives a set that
  -- answers every look-up as before, if the library parses the written text to the written value.
  pub decode-encode_client_features_response :
      (s : ToggleSet)
      → AreEntries s.toggles
      → parse (encode_client_features_response l s) ≡ some (encode_root l s)
      → (s' : ToggleSet) × (decode_client_features_response l (encode_client_features_response l s)
          ≡ expected s')
        × ((k : Text) → find_toggle k s' ≡ find_toggle k s)
  decode-encode_client_features_response s h p = (
    from_list (values s.toggles),
    decode_parsed (encode_client_features_response l s) (encode_root l s) p
        ∙ decode_root-encode_root s h,
    λ k.
        find-from_list k (values s.toggles)
        ∙ (first_named-values k s.toggles h ∙ sym (find-lookup k s)),
  )
