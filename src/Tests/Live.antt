-- ===== src/Tests/Live.antt =====
-- The type of a document, and the program that prints the answers.
use unleash_cpp_sdk.Store.Flags.{is_ready}
use unleash_cpp_sdk.Store.Provider.{local_provider}
use unleash_cpp_sdk.Config.{configure, make_config}
use unleash_cpp_sdk.Fetcher.{make_fetcher, prepare}
use unleash_cpp_sdk.Base.{List, Option, [], codes, none, pos, refl, some, ◌↔◌, ◌∷◌, ◌≡◌}
use unleash_cpp_sdk.Base.Expected.{expected}
use unleash_cpp_sdk.Client.State.{Client, make_client, on_callback, start_client}
use unleash_cpp_sdk.Domain.Toggles as Toggles
use unleash_cpp_sdk.Domain.Toggles.{ToggleSet, from_list}
use unleash_cpp_sdk.Domain.Variant.{Toggle}
use unleash_cpp_sdk.Examples.{
  and_then, answer_line, dispatch, flag_name, goes_on, live_client, live_config, live_main, work,
  work_all,
}
use unleash_cpp_sdk.Examples.Lines.{fetch_round, live_main-answers}
use unleash_cpp_sdk.Json.Decode.{decode_client_features_response}
use unleash_cpp_sdk.Json.Schema.{ResponseOf}
use unleash_cpp_sdk.Json.Schema.Exact.{decode-ResponseOf_iff}
use unleash_cpp_sdk.Tests.Answers.{document-two_flags, ok-success}
use unleash_cpp_sdk.Tests.Data.{
  answers, document_response, sample_context, two_documents, two_flags,
}

decode-ResponseOf_iff_example :
    (decode_client_features_response two_documents (codes "document") ≡ expected two_flags) ↔ (
      (root : two_documents.Json) × (ts : List Toggle) × (two_documents.parse (codes "document")
        ≡ some root)
      × ResponseOf two_documents root ts
      × (two_flags ≡ from_list ts))
decode-ResponseOf_iff_example = decode-ResponseOf_iff two_documents (codes "document") two_flags

live_main-answers_example :
    (c : Client (Option ToggleSet)) × (live_main two_documents
        (λ s. codes "1970-01-01T00:00:02")
        (codes "1.0")
        (pos 0)
        (λ n. n)
        (codes "7")
        none
        (some (codes "http://localhost"))
        (some (codes "key"))
        (some (codes "tried"))
        (fetch_round (dispatch ∷ []) answers sample_context ∷ [])
      ≡ goes_on c (
          answer_line
            (flag_name (some (codes "tried")))
            (Toggles.is_enabled (flag_name (some (codes "tried"))) two_flags)
            (Toggles.get_variant (flag_name (some (codes "tried"))) two_flags)
          ∷ []))
unfolding work_all work and_then prepare live_client make_client on_callback start_client
    make_fetcher live_config configure make_config local_provider is_ready
live_main-answers_example =
    live_main-answers {W = Option ToggleSet} two_documents (λ s. codes "1970-01-01T00:00:02")
      (codes "1.0") (pos 0) (λ n. n) (codes "7") none (codes "http://localhost") (codes "key")
      (some (codes "tried")) (dispatch ∷ []) answers sample_context _ _ document_response two_flags
      refl refl refl ok-success document-two_flags refl
