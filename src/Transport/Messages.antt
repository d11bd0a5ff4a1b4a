-- ===== src/Transport/Messages.antt =====
-- iComClient.hpp and the messages of httpClient.hpp. A request or a response of a class that the SDK
-- does not declare is known by its `type()` text.
use unleash_cpp_sdk.Base.{Bool, Dict, Text, [], pos, ℕ, ℤ}

pub data ComErrorEnum : Type 0 where
  type_mismatch variable_mismatch network_error initialization_error : ComErrorEnum

-- `static_cast<int>` of the enumeration.
unfoldable pub error_code : ComErrorEnum → ℕ
error_code type_mismatch = 0
error_code variable_mismatch = 1
error_code network_error = 2
error_code initialization_error = 3

-- `headers` is a `std::map`.
pub record HttpRequest : Type 0 where
  pub url : Text
  pub use_post_requests : Bool
  pub headers : Dict Text
  pub body : Text
  pub timeout_ms : ℤ

pub record HttpResponse : Type 0 where
  pub body : Text
  pub status : ℤ
  pub headers : Dict Text
  pub error_message : Text

abbrev pub new_response : HttpResponse
new_response = record { body = []; status = pos 0; headers = []; error_message = [] }

pub data ComRequest : Type 0 where
  http_request : HttpRequest → ComRequest
  other_request : Text → ComRequest

pub data ComResponse : Type 0 where
  http_response : HttpResponse → ComResponse
  error_response : ComErrorEnum → Text → ComResponse
  other_response : ComResponse
