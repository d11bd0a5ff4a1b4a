-- ===== src/Json/RoundTrip/Sets.antt =====
-- What the decoder lets through as a set of toggles.
use unleash_cpp_sdk.Base.{
  All, Bool, Bool-cases, Dict, List, Option, Option-cases, Text, [], codes, emplace, false,
  if◌then◌else◌, inl, inr, none, refl, some, subst, text_eq, true, ℕ, ◌+◌, ◌∷◌, ◌≡◌,
}
use unleash_cpp_sdk.Base.Expected.{
  >>=-eq-expected, Expected, expected, expected-injective, unexpected, unexpected≢expected, ◌>>=◌,
}
use unleash_cpp_sdk.Domain.Variant.{Toggle}
use unleash_cpp_sdk.Domain.Toggles.{ToggleSet, from_list, insert_all}
use unleash_cpp_sdk.Json.Library.{Library}
use unleash_cpp_sdk.Json.Decode.{
  add_index, decode_client_features_response, decode_entries, decode_root, decode_toggle,
  decode_toggles,
}
use unleash_cpp_sdk.Json.RoundTrip.{IsDecodable}
use unleash_cpp_sdk.Json.RoundTrip.Decoded.{decode_toggle-IsDecodable}
use unleash_cpp_sdk.Json.RoundTrip.Entries.{AreEntries}

cond-AreEntries :
    (b : Bool) (m n : Dict Toggle) → AreEntries m → AreEntries n → AreEntries (if b then m else n)
cond-AreEntries true m n h k = h
cond-AreEntries false m n h k = k

emplace-AreEntries :
    (t : Toggle) (m : Dict Toggle) → IsDecodable t → AreEntries m → AreEntries (emplace t.name t m)
unfolding emplace
emplace-AreEntries t [] d h = (refl, d, tt)
emplace-AreEntries t ((k, u) ∷ m) d h =
    cond-AreEntries (text_eq k t.name) _ _ h (h.0, h.1, emplace-AreEntries t m d h.2)

insert_all-AreEntries :
    (ts : List Toggle) (m : Dict Toggle)
    → All IsDecodable ts
    → AreEntries m
    → AreEntries (insert_all ts m)
unfolding insert_all
insert_all-AreEntries [] m d h = h
insert_all-AreEntries (t ∷ ts) m d h =
    insert_all-AreEntries ts (emplace t.name t m) d.1 (emplace-AreEntries t m d.0 h)

module _ (l : Library) where
  open l use {Json, parse, find, is_array, elements}

  add_index-expected :
      (i : ℕ) (e : Expected Toggle) (t : Toggle) → add_index l i e ≡ expected t → e ≡ expected t
  add_index-expected i (expected u) t h = unfold add_index in h
  add_index-expected i (unexpected s) t h = absurd (unfold add_index in unexpected≢expected h)

  decode_entries-All :
      (i : ℕ) (items : List Json) (ts : List Toggle)
      → decode_entries l i items ≡ expected ts
      → All IsDecodable ts
  unfolding decode_entries
  decode_entries-All i [] ts e = subst (All IsDecodable) (expected-injective e) tt
  decode_entries-All i (item ∷ items) ts e =
      let (t, d, f) =
        >>=-eq-expected (add_index l i (decode_toggle l item))
          (λ t. do us ← decode_entries l (i + 1) items; expected (t ∷ us)) e in
      let (us, g, k) =
        >>=-eq-expected (decode_entries l (i + 1) items) (λ us. expected (t ∷ us)) f in
      subst (All IsDecodable) (expected-injective k) (
        decode_toggle-IsDecodable l item t (add_index-expected i (decode_toggle l item) t d),
        decode_entries-All (i + 1) items us g,
      )

  decode_toggles-AreEntries :
      (o : Option Json) (s : ToggleSet) → decode_toggles l o ≡ expected s → AreEntries s.toggles
  unfolding decode_toggles from_list
  decode_toggles-AreEntries none s e = absurd (unexpected≢expected e)
  decode_toggles-AreEntries (some a) s e = elim (Bool-cases (is_array a)) [
    | inl h ↦
        let (ts, d, f) =
          >>=-eq-expected (decode_entries l 0 (elements a)) (λ ts. expected (from_list ts))
            (rw h at e) in
        subst (λ u. AreEntries u.toggles) (expected-injective f)
          (insert_all-AreEntries ts [] (decode_entries-All 0 (elements a) ts d) tt)
    | inr h ↦ absurd (unexpected≢expected (rw h at e))
  ]

  -- Whatever text a response is: if it is decoded to a set of toggles, each of these is stored under
  -- its own name and is one that the decoder can make.
  pub decode_client_features_response-AreEntries :
      (text : Text) (s : ToggleSet)
      → decode_client_features_response l text ≡ expected s
      → AreEntries s.toggles
  unfolding decode_client_features_response decode_root
  decode_client_features_response-AreEntries text s e = elim (Option-cases (parse text)) [
    | inl h ↦ absurd (unexpected≢expected (rw (decode_client_features_response, h) at e))
    | inr (root, h) ↦
        decode_toggles-AreEntries (find (codes "toggles") root) s
          (rw (decode_client_features_response, h) at e)
  ]
