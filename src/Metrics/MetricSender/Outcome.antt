-- ===== src/Metrics/MetricSender/Outcome.antt =====
-- When a report counts as delivered.
use unleash_cpp_sdk.Base.{
  Bool, Option, Text, arith, false, is_some, leb_ℤ, ltb_ℤ, none, not, pos, refl, some, ◌&&◌, ◌≡◌,
}
use unleash_cpp_sdk.Transport.Messages.{
  ComResponse, HttpRequest, error_response, http_response, other_response,
}
use unleash_cpp_sdk.Metrics.MetricSender.{MetricSender, send_body, sent, sent_http}

-- An HTTP response with a status from 200 to 299.
unfoldable pub is_delivered : Option ComResponse → Bool
is_delivered (some (http_response resp)) =
    leb_ℤ (pos 200) resp.status && ltb_ℤ resp.status (pos 300)
is_delivered _ = false

sent-error : (o : Option ComResponse) → is_some (sent o).error ≡ not (is_delivered o)
unfolding sent is_delivered
sent-error none = refl
sent-error (some (error_response code message)) = refl
sent-error (some other_response) = refl
sent-error (some (http_response resp)) = unfold sent_http in ground arith

-- The sender posts exactly the body that it is given, with its other fields as they are kept, and
-- reports an error unless the HTTP client answers with a status from 200 to 299.
pub send_body-error :
    (client : HttpRequest → Option ComResponse) (body : Text) (s : MetricSender)
    → let req = record (s.http_request) { body = body } in
      ((send_body client body s).0.http_request ≡ req)
      × (is_some (send_body client body s).1.error ≡ not (is_delivered (client req)))
unfolding send_body
send_body-error client body s =
    (refl, sent-error (client (record (s.http_request) { body = body })))
