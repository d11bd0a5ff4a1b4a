-- ===== src/Transport/HttpClient.antt =====
-- `HttpClient` of httpClient.hpp and httpClient.cpp. libcurl is an argument: it takes the options
-- that were set and returns what the transfer delivered. No handle is `none`.
pub mod Responses
use unleash_cpp_sdk.Base.{
  Bool, Dict, List, Option, Text, [], codes, if◌then◌else◌, is_empty, length, ltb_ℤ, negsuc, none,
  not, pos, some, ℕ, ℤ, ◌++◌, ◌==◌, ◌∷◌,
}
use unleash_cpp_sdk.Transport.Messages.{
  ComRequest, ComResponse, HttpRequest, HttpResponse, error_response, http_request, http_response,
  new_response, other_request, type_mismatch,
}
use unleash_cpp_sdk.Transport.Headers.{header_cb, write_cb}

-- The options of `curl_easy_setopt`, in the order of the calls.
pub data CurlOption : Type 0 where
  url : Text → CurlOption
  follow_location post http_get write_function header_function : CurlOption
  post_fields : Text → CurlOption
  post_field_size : ℕ → CurlOption
  timeout_ms : ℤ → CurlOption
  http_header : List Text → CurlOption
  progress_function : CurlOption

-- What `curl_easy_perform` delivers to the callbacks and returns: the text of its error, if it
-- failed, and the response code, if `curl_easy_getinfo` gives one.
pub record Transfer : Type 0 where
  pub header_lines : List Text
  pub body_chunks : List Text
  pub failure : Option Text
  pub response_code : Option ℤ

abbrev pub Curl : Type 0
Curl = Option (List CurlOption → Transfer)

-- `c_str()` as libcurl reads it, up to the first null byte.
unfoldable pub c_str : Text → Text
c_str [] = []
c_str (c ∷ s) = if c == 0 then [] else c ∷ c_str s

unfoldable pub header_list : Dict Text → List Text
unfolding c_str
header_list [] = []
header_list ((k, v) ∷ m) = c_str (k ++ (codes ": " ++ v)) ∷ header_list m

abbrev option_if : Bool → List CurlOption → List CurlOption
option_if b os = if b then os else []

-- The options before the headers.
unfoldable pub request_options : HttpRequest → List CurlOption
unfolding c_str
request_options req =
    url (c_str req.url)
    ∷ follow_location
    ∷ ((if req.use_post_requests
          then post ∷ post_fields req.body ∷ post_field_size (length req.body) ∷ []
          else http_get ∷ [])
        ++ option_if (ltb_ℤ (pos 0) req.timeout_ms) (timeout_ms req.timeout_ms ∷ []))

-- The options behind the headers.
unfoldable pub callback_options : Bool → List CurlOption
callback_options cancellable =
    write_function ∷ header_function ∷ option_if cancellable (progress_function ∷ [])

unfoldable pub options : HttpRequest → Bool → List CurlOption
unfolding request_options header_list callback_options
options req cancellable =
    request_options req
    ++ (option_if (not (is_empty req.headers)) (http_header (header_list req.headers) ∷ [])
        ++ callback_options cancellable)

unfoldable pub write_all : List Text → Text → Text
unfolding write_cb
write_all [] body = body
write_all (c ∷ cs) body = write_all cs (write_cb c body)

unfoldable pub header_all : List Text → Dict Text → Dict Text
header_all [] headers = headers
header_all (l ∷ ls) headers = header_all ls (header_cb l headers)

-- The status and the message, from the result of the transfer.
conclude : Transfer → HttpResponse → HttpResponse
conclude t resp = elim t.failure [
  | some message ↦ record resp { status = negsuc 0; error_message = message }
  | none ↦ elim t.response_code [
    | some code ↦ record resp { status = code }
    | none ↦ record resp {
      status = negsuc 0;
      error_message = codes "Failed to retrieve response code";
    }
  ]
]

unfoldable pub request_http : Curl → Bool → HttpRequest → HttpResponse → HttpResponse
unfolding options write_all header_all conclude
request_http none cancellable req resp = record resp {
  status = negsuc 0;
  error_message = codes "Failed to initialize CURL";
}
request_http (some perform) cancellable req resp =
    let t = perform (options req cancellable) in
    conclude t (record resp {
      body = write_all t.body_chunks resp.body;
      headers = header_all t.header_lines resp.headers;
    })

unfoldable pub request : Curl → Bool → ComRequest → Option ComResponse
unfolding request_http
request curl cancellable (http_request req) =
    some (http_response (request_http curl cancellable req new_response))
request curl cancellable (other_request type) =
    some (error_response type_mismatch (codes "The request is not an HttpRequest type."))

-- `xferInfoCb`: not zero aborts the transfer.
unfoldable pub xfer_info_cb : Bool → ℕ
xfer_info_cb flag = if flag then 1 else 0
