-- ===== src/Network/Policy.antt =====
-- src/core/network/http_method.hpp, network_error.hpp and retry_policy.hpp.
-- The `int` members of the policy are natural numbers: its defaults are, and `NetworkClient::get`
-- clamps what its caller asks for. Arithmetic on `double` is a parameter.
use chatdesktop.Prelude.{
  ℕ, zero, suc, String, Bool, true, false, not, ◌&&◌, List, [], ◌∷◌, leb, ◌==◌, if◌then◌else◌, ℤ,
  pos, lt, any_of,
}

pub data HttpMethod : Type 0 where
  get post put patch delete head : HttpMethod

unfoldable pub http_method_to_string : HttpMethod → String
http_method_to_string get = "GET"
http_method_to_string post = "POST"
http_method_to_string put = "PUT"
http_method_to_string patch = "PATCH"
http_method_to_string delete = "DELETE"
http_method_to_string head = "HEAD"

unfoldable pub is_idempotent_http_method : HttpMethod → Bool
is_idempotent_http_method get = true
is_idempotent_http_method post = false
is_idempotent_http_method put = true
is_idempotent_http_method patch = false
is_idempotent_http_method delete = true
is_idempotent_http_method head = true

pub data NetworkError : Type 0 where
  no_error : NetworkError
  invalid_request invalid_url : NetworkError
  connection_refused remote_host_close host_not_found operation_cancelled timeout : NetworkError
  ssl_handshake_failed network_session_failed temporary_network_failure : NetworkError
  bad_request unauthorized forbidden not_found conflict validation_failed : NetworkError
  too_many_request : NetworkError
  internal_server_error bad_gateway service_unavailable gateway_timeout : NetworkError
  json_parse_error empty_response : NetworkError
  unknown_network_error unknown_http_error : NetworkError

-- The enumerator's number, by which `operator==` and `QSet::contains` compare.
unfoldable pub error_code : NetworkError → ℕ
error_code no_error = 0
error_code invalid_request = 1
error_code invalid_url = 2
error_code connection_refused = 3
error_code remote_host_close = 4
error_code host_not_found = 5
error_code operation_cancelled = 6
error_code timeout = 7
error_code ssl_handshake_failed = 8
error_code network_session_failed = 9
error_code temporary_network_failure = 10
error_code bad_request = 11
error_code unauthorized = 12
error_code forbidden = 13
error_code not_found = 14
error_code conflict = 15
error_code validation_failed = 16
error_code too_many_request = 17
error_code internal_server_error = 18
error_code bad_gateway = 19
error_code service_unavailable = 20
error_code gateway_timeout = 21
error_code json_parse_error = 22
error_code empty_response = 23
error_code unknown_network_error = 24
error_code unknown_http_error = 25

unfoldable pub error_eq : NetworkError → NetworkError → Bool
error_eq a b = error_code a == error_code b

unfoldable pub network_error_to_string : NetworkError → String
network_error_to_string no_error = "No error"
network_error_to_string invalid_request = "Invalid request"
network_error_to_string invalid_url = "Invalid URL"
network_error_to_string connection_refused = "Connection refused"
network_error_to_string remote_host_close = "Remote host closed the connection"
network_error_to_string host_not_found = "Host not found"
network_error_to_string operation_cancelled = "Request cancelled"
network_error_to_string timeout = "Connection timeout"
network_error_to_string ssl_handshake_failed = "Ssl handshake failed"
network_error_to_string network_session_failed = "Network session failed"
network_error_to_string temporary_network_failure = "Temporary network failure"
network_error_to_string bad_request = "Bad request"
network_error_to_string unauthorized = "Unauthorized"
network_error_to_string forbidden = "Forbidden"
network_error_to_string not_found = "Not found"
network_error_to_string conflict = "Conflict"
network_error_to_string validation_failed = "Validation failed"
network_error_to_string too_many_request = "Too many requests"
network_error_to_string internal_server_error = "Internal server error"
network_error_to_string bad_gateway = "Bad Gateway"
network_error_to_string service_unavailable = "Service unavailable"
network_error_to_string gateway_timeout = "Gateway timeout"
network_error_to_string json_parse_error = "Invalid JSON response"
network_error_to_string empty_response = "Empty response"
network_error_to_string unknown_network_error = "Unknown network error"
network_error_to_string unknown_http_error = "Unknown HTTP error"

-- `double` as `delayForRetry` uses it. `to_int` is the cast to `int`, which gives any `int` where the
-- value is out of range.
pub record FloatApi : Type 1 where
  pub Double : Type 0
  pub of_int : ℕ → Double
  pub times : Double → Double → Double
  pub to_int : Double → ℤ

module _ (float : FloatApi) where
  open float use {Double, of_int, times, to_int}

  pub record RetryPolicy : Type 0 where
    pub maximum_retries : ℕ
    pub initial_delay_ms : ℕ
    pub maximum_delay_ms : ℕ
    pub back_off_multiplier : Double
    pub use_jitter : Bool
    pub retry_non_idempotent_requests : Bool
    pub retryable_errors : List NetworkError

  -- The member initialisers.
  abbrev pub default_policy : RetryPolicy
  default_policy = record {
    maximum_retries = 2;
    initial_delay_ms = 500;
    maximum_delay_ms = 5000;
    back_off_multiplier = of_int 2;
    use_jitter = true;
    retry_non_idempotent_requests = false;
    retryable_errors =
        connection_refused ∷ remote_host_close ∷ timeout ∷ temporary_network_failure ∷ bad_gateway
        ∷ service_unavailable ∷ gateway_timeout ∷ [];
  }

  unfoldable pub should_retry : RetryPolicy → HttpMethod → NetworkError → ℕ → Bool
  should_retry p method error completed_retries =
      if leb p.maximum_retries completed_retries
      then false
      else if not (any_of (error_eq error) p.retryable_errors)
      then false
      else if not p.retry_non_idempotent_requests && not (is_idempotent_http_method method)
      then false
      else true

  -- The `for` loop: `delay` multiplied `n` times.
  pub backed_off : Double → ℕ → Double → Double
  backed_off m zero delay = delay
  backed_off m (suc n) delay = backed_off m n (times delay m)

  abbrev min_int : ℤ → ℤ → ℤ
  min_int a b = if lt a b then a else b

  unfoldable pub delay_for_retry : RetryPolicy → ℕ → ℤ
  delay_for_retry p retry_number =
      min_int (to_int (backed_off p.back_off_multiplier retry_number (of_int p.initial_delay_ms)))
        (pos p.maximum_delay_ms)
