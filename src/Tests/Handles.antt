-- ===== src/Tests/Handles.antt =====
-- The calls of libcurl.
use unleash_cpp_sdk.Base.{List, [], codes, false, pos, true, ◌∷◌}
use unleash_cpp_sdk.Transport.Messages.{HttpRequest}
use unleash_cpp_sdk.Transport.Handles.{Use, construct, destruct, transfer}

abbrev posted : HttpRequest
posted = record {
  url = codes "https://host/";
  use_post_requests = true;
  headers = (codes "accept", codes "text") ∷ [];
  body = codes "{}";
  timeout_ms = pos 500;
}

abbrev uses : List Use
uses =
    transfer (λ line. true) true true false posted
    ∷ construct
    ∷ transfer (λ line. true) false false true posted
    ∷ destruct
    ∷ []
