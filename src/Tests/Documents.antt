-- ===== src/Tests/Documents.antt =====
-- The JSON documents, the backup file and the HTTP requests.
use unleash_cpp_sdk.Base.{
  Text, [], ap, codes, false, inl, inr, is_empty, lookup, none, pos, refl, some, text_eq, true, ◌∷◌,
  ◌≡◌, ◌⊎◌,
}
use unleash_cpp_sdk.Base.Expected.{expected}
use unleash_cpp_sdk.Domain.Variant.{payload_empty}
use unleash_cpp_sdk.Domain.Toggles.{ToggleSet, find as find_toggle}
use unleash_cpp_sdk.Json.Library.{Laws}
use unleash_cpp_sdk.Json.Decode.{
  add_index, bool_value, decode_client_features_response, decode_entries, decode_payload,
  decode_root, decode_toggle, decode_toggles, decode_variant, impression_value, live_name,
  make_payload, named_variant, not_empty, string_value, variant_if,
}
use unleash_cpp_sdk.Json.Encode.{
  encode_client_features_response, encode_entries, encode_payload, encode_root, encode_toggle,
  encode_variant, set_payload,
}
use unleash_cpp_sdk.Json.RoundTrip.{IsLive}
use unleash_cpp_sdk.Json.RoundTrip.Entries.{AreEntries, decode-encode_client_features_response}
use unleash_cpp_sdk.Store.Files.{Access, file_get, file_save, is_space, is_whitespace_only}
use unleash_cpp_sdk.Store.Files.Backup.{file_get-file_save}
use unleash_cpp_sdk.Fetcher.{
  FetchResult, ToggleFetcher, fetch, fetched, keep_etag, make_fetcher, prepare, receive,
  receive_http,
}
use unleash_cpp_sdk.Fetcher.Results.{IsHandled, encodes, fetch-IsHandled}
use unleash_cpp_sdk.Fetcher.Requests.{fetch_all, fetch_all-etag, last_header}
use unleash_cpp_sdk.Fetcher.Connection.{HasOwnHeader, connection_header, connection_id_misnamed}
use unleash_cpp_sdk.Metrics.MetricSender.{make_sender}
use unleash_cpp_sdk.Transport.Messages.{HttpRequest}
use unleash_cpp_sdk.Transport.HttpClient.{Transfer}
use unleash_cpp_sdk.Utils.Strings.{keys_to_lower_case}
use unleash_cpp_sdk.Tests.Data.{
  answers, blue, sample_config, sample_context, two_documents, two_flags,
}
use unleash_cpp_sdk.Tests.Trees.{null_value, trees, trees-Laws}

pub laws : Laws two_documents
unfolding two_documents
laws = trees-Laws (encode_root (trees null_value) two_flags)

abbrev pub blue_IsLive : IsLive blue
blue_IsLive = record { enabled = refl; named = refl; typed = refl }

pub two_flags-AreEntries : AreEntries two_flags.toggles
two_flags-AreEntries = (refl, inl refl, (refl, inr (refl, blue_IsLive), tt))

pub two_flags-parse :
    two_documents.parse (encode_client_features_response two_documents two_flags)
    ≡ some (encode_root two_documents two_flags)
unfolding two_documents trees encode_client_features_response encode_root encode_entries
    encode_toggle encode_variant set_payload encode_payload payload_empty text_eq
two_flags-parse = refl

decode-encode_client_features_response_example :
    (s : ToggleSet) × (decode_client_features_response two_documents
        (encode_client_features_response two_documents two_flags)
      ≡ expected s)
    × ((k : Text) → find_toggle k s ≡ find_toggle k two_flags)
decode-encode_client_features_response_example =
    decode-encode_client_features_response two_documents laws two_flags two_flags-AreEntries
      two_flags-parse

abbrev pub granted : Access
granted = record { directories = true; readable = true; writable = true }

pub two_flags-written :
    is_whitespace_only (encode_client_features_response two_documents two_flags) ≡ false
unfolding two_documents trees encode_client_features_response is_whitespace_only is_space
two_flags-written = refl

file_get-file_save_example :
    (s : ToggleSet) × (file_get two_documents granted
        (codes "backup.json")
        (file_save two_documents granted (codes "backup.json") two_flags [])
      ≡ some s)
    × ((k : Text) → find_toggle k s ≡ find_toggle k two_flags)
file_get-file_save_example =
    file_get-file_save two_documents laws granted (codes "backup.json") two_flags []
      (refl, refl, refl) two_flags-AreEntries two_flags-parse two_flags-written

fetch-IsHandled_example :
    let f = make_fetcher (codes "1.0") sample_config in
    ((encodes two_documents sample_context f ≡ false)
      × (fetch two_documents answers sample_context f ≡ none))
    ⊎ ((encodes two_documents sample_context f ≡ true)
        × (f' : ToggleFetcher) × (r : FetchResult) × (fetch two_documents answers sample_context f
            ≡ some (f', r))
        × IsHandled r)
fetch-IsHandled_example =
    fetch-IsHandled two_documents answers sample_context (make_fetcher (codes "1.0") sample_config)

one_fetch-etag :
    (fetch_all two_documents
      ((sample_context, answers) ∷ [])
      (make_fetcher (codes "1.0") sample_config)).etag
    ≡ codes "tag-1"
unfolding two_documents trees fetch_all fetch receive receive_http fetched keep_etag make_fetcher
    prepare decode_client_features_response decode_root decode_toggles decode_entries add_index
    decode_toggle variant_if decode_variant named_variant encode_root encode_entries encode_toggle
    live_name decode_payload encode_variant set_payload encode_payload payload_empty text_eq
    string_value bool_value impression_value not_empty make_payload lookup
one_fetch-etag = refl

fetch_all-etag_example :
    lookup
      (codes "if-none-match")
      (fetch_all two_documents
        ((sample_context, answers) ∷ [])
        (make_fetcher (codes "1.0") sample_config)).http_request.headers
    ≡ some
        (fetch_all two_documents
          ((sample_context, answers) ∷ [])
          (make_fetcher (codes "1.0") sample_config)).etag
fetch_all-etag_example =
    fetch_all-etag (codes "1.0") sample_config two_documents ((sample_context, answers) ∷ [])
      (ap is_empty one_fetch-etag)

sample-HasOwnHeader : HasOwnHeader sample_config
unfolding text_eq keys_to_lower_case
sample-HasOwnHeader = refl

connection_id_misnamed_example :
    (lookup connection_header (make_fetcher (codes "1.0") sample_config).http_request.headers
      ≡ last_header connection_header sample_config.custom_headers none)
    × (lookup connection_header (make_sender (codes "1.0") sample_config).http_request.headers
        ≡ last_header connection_header sample_config.custom_headers (some (codes "id")))
connection_id_misnamed_example =
    connection_id_misnamed (codes "1.0") sample_config sample-HasOwnHeader

abbrev transfer : Transfer
transfer = record {
  header_lines = codes "HTTP/1.1 200 OK" ∷ codes "ETag:  tag-1 " ∷ [];
  body_chunks = codes "docu" ∷ codes "ment" ∷ [];
  failure = none;
  response_code = some (pos 200);
}

abbrev sample_request : HttpRequest
sample_request = record {
  url = codes "https://host/";
  use_post_requests = false;
  headers = [];
  body = [];
  timeout_ms = pos 0;
}
