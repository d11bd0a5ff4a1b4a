-- ===== src/Metrics/MetricSender.antt =====
-- metricSender.hpp and metricSender.cpp.
pub mod Outcome
use unleash_cpp_sdk.Base.{
  Dict, Option, Text, [], assign, codes, eqb_ℤ, if◌then◌else◌, leb_ℤ, ltb_ℤ, negsuc, none, pos,
  some, to_int32, true, ℤ, ◌&&◌, ◌++◌,
}
use unleash_cpp_sdk.Config.{ClientConfig}
use unleash_cpp_sdk.Fetcher.{add_custom_headers}
use unleash_cpp_sdk.Transport.Messages.{
  ComResponse, HttpRequest, HttpResponse, error_code, error_response, http_response, other_response,
}
use unleash_cpp_sdk.Utils.Strings.{
  agent_version, int_to_string, keys_to_lower_case, sdk_version, to_string,
}

pub record MetricSender : Type 0 where
  pub http_request : HttpRequest

pub record MetricResult : Type 0 where
  pub status : ℤ
  pub error : Option Text

module _ {W : Type 0} (version : Text) where
  unfoldable pub metric_headers : ClientConfig W → Dict Text
  metric_headers c =
      let h₀ = assign (codes "accept") (codes "application/json") [] in
      let h₁ = assign (codes "unleash-connection-id") c.connection_id h₀ in
      let h₂ = assign (keys_to_lower_case c.header_name) c.client_key h₁ in
      let h₃ = assign (codes "unleash-sdk") (sdk_version version) h₂ in
      let h₄ = assign (codes "user-agent") (agent_version version) h₃ in
      let h₅ = assign (codes "content-type") (codes "application/json") h₄ in
      assign (codes "unleash-appname") c.app_name h₅

  unfoldable pub make_sender : ClientConfig W → MetricSender
  unfolding metric_headers add_custom_headers
  make_sender c = record {
    http_request = record {
      url = c.url ++ codes "/client/metrics";
      use_post_requests = true;
      headers = add_custom_headers c.custom_headers (metric_headers c);
      body = [];
      timeout_ms = c.time_out_query_ms;
    };
  }

sent_http : HttpResponse → MetricResult
unfolding int_to_string
sent_http resp =
    if eqb_ℤ resp.status (pos 0)
    then record {
      status = to_int32 resp.status;
      error =
          some
            (codes "Transport error (status=0). Network failure / DNS / connection refused / etc.");
    }
    else if leb_ℤ (pos 200) resp.status && ltb_ℤ resp.status (pos 300)
    then record { status = to_int32 resp.status; error = none }
    else record {
      status = to_int32 resp.status;
      error = some (
          codes "HTTP error status="
          ++ (int_to_string resp.status
              ++ (codes " body=" ++ (resp.body ++ (codes " Error: " ++ resp.error_message)))));
    }

sent : Option ComResponse → MetricResult
unfolding sent_http error_code to_string
sent none = record {
  status = negsuc 0;
  error = some (codes "Error: null response from HttpClient");
}
sent (some (error_response code message)) = record {
  status = negsuc 0;
  error = some (
      codes "Request failed with code error <"
      ++ (to_string (error_code code) ++ (codes "> and message:\n " ++ message)));
}
sent (some other_response) = record {
  status = negsuc 0;
  error = some (codes "Error: The resulting response is not of type: HttpResponse.");
}
sent (some (http_response resp)) = sent_http resp

unfoldable pub send_body :
    (HttpRequest → Option ComResponse) → Text → MetricSender → MetricSender × MetricResult
unfolding sent
send_body client body s =
    let req = record (s.http_request) { body = body } in
    (record { http_request = req }, sent (client req))
