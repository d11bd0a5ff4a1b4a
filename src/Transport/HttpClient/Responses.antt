-- ===== src/Transport/HttpClient/Responses.antt =====
-- What every response of the HTTP client has in common.
use unleash_cpp_sdk.Base.{
  All, Bool, Bool-cases, Dict, List, Option-cases, Text, [], arith, assign, false, inl, inr,
  is_empty, none, refl, some, text_eq, text_lt, ◌∷◌, ◌≡◌,
}
use unleash_cpp_sdk.Transport.Messages.{
  HttpRequest, HttpResponse, http_request, http_response, new_response,
}
use unleash_cpp_sdk.Transport.Headers.{find_byte, header_cb, store_header, take}
use unleash_cpp_sdk.Transport.HttpClient.{
  Curl, Transfer, conclude, header_all, options, request, request_http,
}
use unleash_cpp_sdk.Utils.Strings.{keys_to_lower_case, keys_to_lower_case_idem}

-- A header is stored under a name in lower case, and neither the name nor the value is empty.
abbrev pub IsStored : Text × Text → Type 0
IsStored (k, v) = (keys_to_lower_case k ≡ k) × (is_empty k ≡ false) × (is_empty v ≡ false)

assign-All :
    (k v : Text) (m : Dict Text) → IsStored (k, v) → All IsStored m → All IsStored (assign k v m)
unfolding assign
assign-All k v [] s h = (s, tt)
assign-All k v ((j, w) ∷ m) s h = elim (Bool-cases (text_eq j k)) [
  | inl e ↦ rw e (s, h.1)
  | inr e ↦ rw e (elim (Bool-cases (text_lt k j)) [
    | inl f ↦ rw f (s, h)
    | inr f ↦ rw f (h.0, assign-All k v m s h.1)
  ])
]

store_header-All :
    (k v : Text) (m : Dict Text)
    → keys_to_lower_case k ≡ k
    → All IsStored m
    → All IsStored (store_header k v m)
unfolding store_header
store_header-All k v m low h = elim (Bool-cases (is_empty k)) [
  | inl e ↦ rw e h
  | inr e ↦ rw e (elim (Bool-cases (is_empty v)) [
    | inl f ↦ rw f h
    | inr f ↦ rw f (assign-All k v m (low, e, f) h)
  ])
]

header_cb-All : (line : Text) (m : Dict Text) → All IsStored m → All IsStored (header_cb line m)
unfolding header_cb
header_cb-All line m h = elim (Option-cases (find_byte b':' line)) [
  | inl e ↦ rw (e, header_cb) h
  | inr (at, e) ↦
      rw (e, header_cb) (store_header-All _ _ m (keys_to_lower_case_idem (take at line)) h)
]

header_all-All :
    (lines : List Text) (m : Dict Text) → All IsStored m → All IsStored (header_all lines m)
unfolding header_all
header_all-All [] m h = h
header_all-All (line ∷ lines) m h = header_all-All lines (header_cb line m) (header_cb-All line m h)

conclude-headers : (t : Transfer) (resp : HttpResponse) → (conclude t resp).headers ≡ resp.headers
unfolding conclude
conclude-headers t resp = ground arith

request_http-headers :
    (curl : Curl) (cancellable : Bool) (req : HttpRequest)
    → All IsStored (request_http curl cancellable req new_response).headers
unfolding request_http
request_http-headers none cancellable req = tt
request_http-headers (some perform) cancellable req =
    let t = perform (options req cancellable) in
    rw (conclude-headers t _) (header_all-All t.header_lines [] tt)

-- Whatever the transfer does, also when libcurl gives no handle, a request of the SDK's own class is
-- answered by an `HttpResponse`, whose headers have names in lower case and neither an empty name
-- nor an empty value.
pub request-answers :
    (curl : Curl) (cancellable : Bool) (req : HttpRequest)
    → (resp : HttpResponse) × (request curl cancellable (http_request req)
        ≡ some (http_response resp))
      × All IsStored resp.headers
unfolding request
request-answers curl cancellable req = (
  request_http curl cancellable req new_response,
  refl,
  request_http-headers curl cancellable req,
)
