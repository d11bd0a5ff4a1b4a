-- ===== src/Tests/Answers.antt =====
-- What the client answers after a fetch, and after a restart.
use unleash_cpp_sdk.Fetcher.{make_fetcher, prepare}
use unleash_cpp_sdk.Base.{
  Option, Text, [], arith, codes, emplace, pos, refl, some, text_eq, true, ◌≡◌,
}
use unleash_cpp_sdk.Base.Expected.{expected}
use unleash_cpp_sdk.Domain.Toggles.{ToggleSet, from_list, insert_all}
use unleash_cpp_sdk.Domain.Variant.{make_toggle, make_variant, payload_empty}
use unleash_cpp_sdk.Json.Decode.{
  add_index, bool_value, decode_client_features_response, decode_entries, decode_payload,
  decode_root, decode_toggle, decode_toggles, decode_variant, impression_value, live_name,
  make_payload, named_variant, not_empty, string_value, variant_if,
}
use unleash_cpp_sdk.Json.Encode.{
  encode_entries, encode_payload, encode_root, encode_toggle, encode_variant, set_payload,
}
use unleash_cpp_sdk.Fetcher.Results.{is_success}
use unleash_cpp_sdk.Store.Files.{Disk, file_provider}
use unleash_cpp_sdk.Client.State.{Client, make_client, start_client}
use unleash_cpp_sdk.Client.Threads.{single_fetch_toggles}
use unleash_cpp_sdk.Client.Answers.{AnswersAs, fetch_answers}
use unleash_cpp_sdk.Client.Answers.Restart.{restart_answers}
use unleash_cpp_sdk.Tests.Data.{
  answers, client_with, config_with, document_response, idle_client, sample_context, two_documents,
  two_flags,
}
use unleash_cpp_sdk.Tests.Trees.{trees}
use unleash_cpp_sdk.Tests.Documents.{granted, laws, two_flags-parse, two_flags-written}

pub document-two_flags :
    decode_client_features_response two_documents (codes "document") ≡ expected two_flags
unfolding two_documents trees decode_client_features_response decode_root decode_toggles
    decode_entries add_index decode_toggle variant_if decode_variant named_variant encode_root
    encode_entries encode_toggle live_name decode_payload encode_variant set_payload encode_payload
    payload_empty text_eq string_value bool_value impression_value not_empty make_payload from_list
    insert_all emplace make_toggle make_variant
document-two_flags = refl

pub ok-success : is_success (pos 200) ≡ true
ok-success = ground arith

fetch_answers_example :
    (c' : Client (Option ToggleSet)) × (single_fetch_toggles two_documents answers sample_context
        idle_client
      ≡ some c')
    × (c'.ready ≡ true)
    × AnswersAs two_flags c'
    × (c'.world ≡ some two_flags)
unfolding prepare make_fetcher
fetch_answers_example =
    fetch_answers two_documents answers sample_context idle_client _ document_response two_flags
      refl refl ok-success document-two_flags refl

abbrev disk : Text
disk = codes "backup.json"

abbrev filed : Client Disk
filed = client_with (file_provider two_documents granted disk) []

restart_answers_example :
    (c' : Client Disk) × (single_fetch_toggles two_documents answers sample_context filed ≡ some c')
    × AnswersAs two_flags c'
    × AnswersAs two_flags (
        start_client (
          make_client
            (codes "1.1")
            (pos 9)
            (config_with (file_provider two_documents granted disk))
            sample_context
            c'.world))
unfolding prepare make_fetcher
restart_answers_example =
    restart_answers two_documents laws granted disk answers sample_context filed _ document_response
      two_flags (codes "1.1") (pos 9) (config_with (file_provider two_documents granted disk))
      sample_context refl refl (refl, refl, refl) refl refl ok-success document-two_flags refl
      two_flags-parse two_flags-written
