-- ===== src/Json/RoundTrip/Views.antt =====
-- The round trip as an equation of views.
use unleash_cpp_sdk.Base.{Option, Text, ap, none, some, ◌≡◌}
use unleash_cpp_sdk.Base.Expected.{Expected, expected, unexpected}
use unleash_cpp_sdk.Domain.Toggles.{ToggleSet}
use unleash_cpp_sdk.Domain.Toggles.View.{ToggleView, view, view_iff}
use unleash_cpp_sdk.Json.Library.{Laws, Library}
use unleash_cpp_sdk.Json.Decode.{decode_client_features_response}
use unleash_cpp_sdk.Json.Encode.{encode_client_features_response, encode_root}
use unleash_cpp_sdk.Json.RoundTrip.Entries.{AreEntries, decode-encode_client_features_response}

view_of : Expected ToggleSet → Option ToggleView
view_of (expected s) = some (view s)
view_of (unexpected e) = none

module _ (l : Library) where
  -- The view of what a text is decoded to.
  decoded_view : Text → Option ToggleView
  unfolding view_of
  decoded_view text = view_of (decode_client_features_response l text)

module _ (l : Library) (laws : Laws l) where
  -- A set of toggles that the decoder can make is written as a text that is decoded to the set's view,
  -- provided that the library parses the text to the written value.
  decoded_view-view :
      (s : ToggleSet)
      → AreEntries s.toggles
      → l.parse (encode_client_features_response l s) ≡ some (encode_root l s)
      → decoded_view l (encode_client_features_response l s) ≡ some (view s)
  unfolding decoded_view view_of
  decoded_view-view s h p =
      let (s', e, f) = decode-encode_client_features_response l laws s h p in
      rw e (ap some ((view_iff s' s).1 f))
