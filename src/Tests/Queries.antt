-- ===== src/Tests/Queries.antt =====
-- The query and the body of a context.
use unleash_cpp_sdk.Fetcher.Query.Written.{Parameter}
use unleash_cpp_sdk.Json.Encode.ContextBody.{encode_context_request_body-members}
use unleash_cpp_sdk.Json.Encode.Paths.{at_path, found}
use unleash_cpp_sdk.Json.Encode.{encode_context_request_body}
use unleash_cpp_sdk.Tests.Documents.{laws}
use unleash_cpp_sdk.Base.{
  Bool, HasOnce, List, Text, [], codes, if◌then◌else◌, lookup, ltb, none, refl, some, true, ◌&&◌,
  ◌∷◌, ◌≡◌,
}
use unleash_cpp_sdk.Tests.Data.{sample_context, two_documents}

are_bytes : Text → Bool
are_bytes [] = true
are_bytes (c ∷ s) = ltb c 256 && are_bytes s

have_bytes : List Parameter → Bool
unfolding are_bytes
have_bytes [] = true
have_bytes ((k, v) ∷ ps) = are_bytes k && (are_bytes v && have_bytes ps)

sample-HasOnce : HasOnce sample_context.mutable_context.properties
unfolding lookup
sample-HasOnce = (refl, tt)

encode_context_request_body-members_example :
    let mc = sample_context.mutable_context in
    (root : two_documents.Json) × (encode_context_request_body two_documents sample_context
      ≡ (if two_documents.is_utf8 root then some (two_documents.dump root) else none))
    × (at_path two_documents root (codes "context" ∷ codes "appName" ∷ [])
        ≡ some (two_documents.of_string sample_context.app_name))
    × (at_path two_documents root (codes "context" ∷ codes "sessionId" ∷ [])
        ≡ some (two_documents.of_string sample_context.session_id))
    × (at_path two_documents root (codes "context" ∷ codes "environment" ∷ [])
        ≡ found two_documents.of_string sample_context.environment none)
    × (at_path two_documents root (codes "context" ∷ codes "userId" ∷ [])
        ≡ found two_documents.of_string mc.user_id none)
    × (at_path two_documents root (codes "context" ∷ codes "remoteAddress" ∷ [])
        ≡ found two_documents.of_string mc.remote_address none)
    × (at_path two_documents root (codes "context" ∷ codes "currentTime" ∷ [])
        ≡ found two_documents.of_string mc.current_time none)
    × ((k : Text)
        → at_path two_documents root (codes "context" ∷ codes "properties" ∷ k ∷ [])
          ≡ found two_documents.of_string (lookup k mc.properties) none)
encode_context_request_body-members_example =
    encode_context_request_body-members two_documents laws sample_context sample-HasOnce
