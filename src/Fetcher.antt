-- ===== src/Fetcher.antt =====
-- toggleFetcher.hpp and toggleFetcher.cpp.
pub mod Query
pub mod Results
pub mod Requests
pub mod Connection
use unleash_cpp_sdk.Base.{
  Bool, Dict, Option, Text, [], assign, codes, eqb_ℤ, if◌then◌else◌, is_empty, leb_ℤ, lookup, ltb_ℤ,
  negsuc, none, not, pos, some, to_int32, ℤ, ◌&&◌, ◌++◌, ◌==◌, ◌∷◌,
}
use unleash_cpp_sdk.Base.Expected.{Expected, expected, unexpected}
use unleash_cpp_sdk.Config.{ClientConfig}
use unleash_cpp_sdk.Domain.Context.{Context}
use unleash_cpp_sdk.Domain.Toggles.{ToggleSet, size}
use unleash_cpp_sdk.Transport.Messages.{
  ComResponse, HttpRequest, HttpResponse, error_code, error_response, http_response, other_response,
}
use unleash_cpp_sdk.Utils.Strings.{
  agent_version, int_to_string, keys_to_lower_case, sdk_version, to_string,
}
use unleash_cpp_sdk.Json.Library.{Library}
use unleash_cpp_sdk.Json.Decode.{decode_client_features_response}
use unleash_cpp_sdk.Json.Encode.{encode_context_request_body}
use Query.{build_context_query}

pub record ToggleFetcher : Type 0 where
  pub http_request : HttpRequest
  pub base_url : Text
  pub etag : Text

pub record FetchResult : Type 0 where
  pub status : ℤ
  pub toggles : Option ToggleSet
  pub error : Option Text

abbrev pub new_result : FetchResult
new_result = record { status = negsuc 0; toggles = none; error = none }

-- The loop over the custom headers, which override what was set before under the same name.
unfoldable pub add_custom_headers : Dict Text → Dict Text → Dict Text
add_custom_headers [] headers = headers
add_custom_headers ((k, v) ∷ m) headers =
    add_custom_headers m (if is_empty k then headers else assign (keys_to_lower_case k) v headers)

unfoldable pub assign_if : Bool → Text → Text → Dict Text → Dict Text
assign_if b k v headers = if b then assign k v headers else headers

module _ {W : Type 0} (version : Text) where
  unfoldable pub frontend_headers : ClientConfig W → Text → Dict Text
  unfolding assign_if
  frontend_headers c etag =
      let h₀ = assign (codes "accept") (codes "application/json") [] in
      let h₁ = assign (codes "'unleash-connection-id'") c.connection_id h₀ in
      let h₂ = assign (keys_to_lower_case c.header_name) c.client_key h₁ in
      let h₃ = assign (codes "unleash-sdk") (sdk_version version) h₂ in
      let h₄ = assign (codes "user-agent") (agent_version version) h₃ in
      let h₅ = assign (codes "unleash-appname") c.app_name h₄ in
      let h₆ = assign_if c.use_post_requests (codes "content-type") (codes "application/json") h₅ in
      assign_if (not (is_empty etag)) (codes "if-none-match") etag h₆

  -- The constructor calls `makeFrontendRequest` while the etag and the body are still empty.
  unfoldable pub make_fetcher : ClientConfig W → ToggleFetcher
  unfolding frontend_headers add_custom_headers
  make_fetcher c = record {
    http_request = record {
      url = c.url;
      use_post_requests = c.use_post_requests;
      headers = add_custom_headers c.custom_headers (frontend_headers c []);
      body = [];
      timeout_ms = c.time_out_query_ms;
    };
    base_url = c.url;
    etag = [];
  }

module _ (l : Library) where
  -- `none` is the exception of the encoder, which leaves the request as it is.
  unfoldable pub prepare : Context → ToggleFetcher → Option ToggleFetcher
  prepare ctx f =
      let req = f.http_request in
      if req.use_post_requests
      then (elim (encode_context_request_body l ctx) [
        | none ↦ none
        | some body ↦ some (record f { http_request = record req { body = body } })
      ])
      else some (record f {
        http_request = record req { body = []; url = f.base_url ++ build_context_query ctx };
      })

  -- `_etag = value` and the header, if the response has an etag that is not empty.
  unfoldable pub keep_etag : Option Text → ToggleFetcher → ToggleFetcher
  keep_etag none f = f
  keep_etag (some tag) f = if is_empty tag then f else record f {
    etag = tag;
    http_request = record (f.http_request) {
      headers = assign (codes "if-none-match") tag f.http_request.headers;
    };
  }

  -- An empty set of toggles is not passed on.
  unfoldable pub fetched :
      HttpResponse → Expected ToggleSet → ToggleFetcher → ToggleFetcher × FetchResult
  unfolding keep_etag
  fetched resp (unexpected e) f = (
    f,
    record {
      status = to_int32 resp.status;
      toggles = none;
      error = some (codes "Failed to decode toggles JSON: " ++ e);
    },
  )
  fetched resp (expected s) f = (
    keep_etag (lookup (codes "etag") resp.headers) f,
    record {
      status = to_int32 resp.status;
      toggles = if size s == 0 then none else some s;
      error = none;
    },
  )

  unfoldable pub receive_http : HttpResponse → ToggleFetcher → ToggleFetcher × FetchResult
  unfolding fetched
  receive_http resp f =
      if eqb_ℤ resp.status (pos 0)
      then (
        f,
        record {
          status = to_int32 resp.status;
          toggles = none;
          error = some (
              codes
                "Transport error (status=0). Network failure / DNS / connection refused / etc.");
        },
      )
      else if eqb_ℤ resp.status (pos 304)
      then (f, record { status = to_int32 resp.status; toggles = none; error = none })
      else if leb_ℤ (pos 200) resp.status && ltb_ℤ resp.status (pos 300)
      then fetched resp (decode_client_features_response l resp.body) f
      else (
        f,
        record {
          status = to_int32 resp.status;
          toggles = none;
          error = some (codes "Error: " ++ resp.error_message);
        },
      )

  unfoldable pub receive : Option ComResponse → ToggleFetcher → ToggleFetcher × FetchResult
  unfolding receive_http error_code int_to_string
  receive none f =
      (f, record new_result { error = some (codes "Error: null response from HttpClient") })
  receive (some (error_response code message)) f = (
    f,
    record new_result {
      error = some (
          codes "Request failed with code error <"
          ++ (to_string (error_code code) ++ (codes "> and message:\n " ++ message)));
    },
  )
  receive (some other_response) f = (
    f,
    record new_result {
      error = some (codes "Error: The resulting response is not of type: HttpResponse.");
    },
  )
  receive (some (http_response resp)) f = receive_http resp f

  -- `client` is the request method of the HTTP client; `none` is an exception.
  unfoldable pub request_prepared :
      (HttpRequest → Option ComResponse)
      → Option ToggleFetcher
      → Option (ToggleFetcher × FetchResult)
  unfolding receive
  request_prepared client none = none
  request_prepared client (some f) = some (receive (client f.http_request) f)

  unfoldable pub fetch :
      (HttpRequest → Option ComResponse)
      → Context
      → ToggleFetcher
      → Option (ToggleFetcher × FetchResult)
  unfolding prepare request_prepared
  fetch client ctx f = request_prepared client (prepare ctx f)
