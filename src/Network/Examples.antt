-- ===== src/Network/Examples.antt =====
-- The theorems on the HTTP client at a concrete Qt, network and requests.
use chatdesktop.Prelude.{
  ℕ, zero, suc, ◌*◌, ◌≤◌, ◌+◌, ◌/◌, ◌<◌, ◌≡◌, ◌≢◌, ◌↔◌, refl, String, Bool, true, false, not, none,
  some, [], ◌∷◌, length, arith, pos, le, lt, ◌^◌,
}
use chatdesktop.Network.Policy.{
  get, post, no_error, error_code, FloatApi, default_policy, error_eq, is_idempotent_http_method,
}
use chatdesktop.Network.Client.{
  Qt, NetworkRequest, NetworkResponse, Interceptor, Reply, Net, RequestContext, no_reply_error,
  other_error, map_http_status, reply_status_error, map_error, read_json, parse_body,
  apply_request_interceptors, retry_delay, apply_response_interceptors, is_success, create_response,
  map_network_error, status_of,
}
use chatdesktop.Network.Client.Attempts.{send, prepare_request}
use chatdesktop.Network.Client.Laws.{
  map_http_status_iff, retry_delay-le, unwound, apply_response-unwinds, create_response-is_success,
}
use chatdesktop.Network.Client.Settling.{send_settles, send_answers, send_once, may_retry, prepared}

abbrev float : FloatApi
float = record { Double = ℕ; of_int = λ n. n; times = λ a b. a * b; to_int = λ n. pos n }

-- URLs are texts, every URL is absolute and valid, and every body parses as an object.
abbrev qt : Qt
qt = record {
  float = float;
  Url = String;
  Query = Bool;
  Json = String;
  JsonObject = String;
  QtRequest = String;
  Chain = Bool;
  new_url = λ s. s;
  is_relative = λ u. false;
  resolved = λ b u. u;
  set_query = λ u q. u;
  is_valid_url = λ u. true;
  scheme = λ u. "https";
  host = λ u. "host";
  no_query = false;
  query_is_empty = λ q. not q;
  null_json = "";
  parse_json = λ s. (s, none);
  is_object = λ j. true;
  message = λ j. "";
  to_json = λ o. o;
  trimmed = λ s. s;
  new_request = λ u. u;
  set_user_agent = λ q s. q;
  set_raw_header = λ q n v. q;
}

abbrev good_reply : Reply qt
good_reply = record {
  contents = "{}";
  status = some 200;
  raw_headers = [];
  error = no_reply_error;
  error_string = "";
}

-- The first reply is a bad gateway, the others succeed.
abbrev reply_at : ℕ → Reply qt
reply_at zero = good_reply
reply_at (suc zero) = record good_reply { status = some 502; error = other_error }
reply_at (suc (suc n)) = good_reply

abbrev net : Net qt
net = record {
  exchange = λ n call. some (record { signals = []; reply = reply_at n });
  abort = λ r. r;
  is_valid_chain = λ c. c;
  is_canceled_before = λ n. false;
  is_canceled_after = λ n. false;
  elapsed = λ n. n;
  bounded = λ n k. 0;
}

abbrev tag_body : Interceptor qt
tag_body = record {
  intercept_request = λ r. r;
  interceptor_response = λ q r. record r { duration_ms = 1 };
}

abbrev get_rooms : NetworkRequest qt
get_rooms = record {
  url = "https://host/rooms";
  method = get;
  body = "";
  headers = [];
  query = false;
  timeout_ms = 30000;
  parse_json_response = true;
  requires_authentication = true;
  retry_policy = default_policy float;
  request_id = "1";
  operation_name = "";
}

abbrev post_room : NetworkRequest qt
post_room = record get_rooms { method = post; body = "{}" }

map_http_status_iff_example : (map_http_status 302 ≡ no_error) ↔ ((◌≢◌ {A = ℕ} 302 0) × (302 < 400))
map_http_status_iff_example = map_http_status_iff 302

retry_delay-le_example :
    (le (retry_delay qt (λ n. 0) (default_policy float) 3) (pos (5000 + 5000 / 4)) ≡ true)
    × (lt (retry_delay qt (λ n. 0) (default_policy float) 3) (pos (2 ^ 31)) ≡ true)
retry_delay-le_example =
    retry_delay-le qt (λ n. 0) (λ n h. h) (default_policy float) (omega arith) 3

ok_response : NetworkResponse qt
ok_response = create_response qt get_rooms good_reply 1 1

apply_response-unwinds_example :
    apply_response_interceptors qt (tag_body ∷ (tag_body ∷ [])) get_rooms ok_response
    ≡ unwound qt (tag_body ∷ (tag_body ∷ [])) get_rooms ok_response
apply_response-unwinds_example =
    apply_response-unwinds qt (tag_body ∷ (tag_body ∷ [])) get_rooms ok_response

good_is_success : is_success qt (create_response qt get_rooms good_reply 1 1) ≡ true
unfolding create_response is_success reply_status_error map_network_error map_error map_http_status
    read_json parse_body status_of error_eq error_code
good_is_success = refl

create_response-is_success_example :
    (map_network_error qt good_reply ≡ no_error)
    × (200 ≤ status_of qt good_reply.status)
    × (status_of qt good_reply.status < 300)
    × ((qt.parse_json good_reply.contents).1 ≡ none)
create_response-is_success_example =
    create_response-is_success qt get_rooms good_reply 1 1 refl good_is_success

two_retries :
    (prepared qt net (tag_body ∷ []) "https://host" "2" get_rooms).retry_policy.maximum_retries < 3
unfolding prepare_request apply_request_interceptors
two_retries = omega arith

not_retried : may_retry qt (prepared qt net (tag_body ∷ []) "https://host" "2" post_room) ≡ false
unfolding prepare_request apply_request_interceptors is_idempotent_http_method
not_retried = refl

send_settles_example :
    (d : RequestContext qt) × (send qt net (tag_body ∷ []) 3 "https://host" "2" get_rooms ≡ some d)
    × (d.promise.is_finished ≡ true)
    × (d.attempt_count
        ≤ suc
            (prepared qt net
              (tag_body ∷ [])
              "https://host"
              "2"
              get_rooms).retry_policy.maximum_retries)
    × (length d.promise.results ≤ 1)
send_settles_example =
    send_settles qt net (tag_body ∷ []) "https://host" "2" get_rooms 3 two_retries

send_answers_example :
    (d : RequestContext qt) × (send qt net (tag_body ∷ []) 3 "https://host" "2" get_rooms ≡ some d)
    × (length d.promise.results ≡ 1)
send_answers_example =
    send_answers qt net (tag_body ∷ []) "https://host" "2" get_rooms 3 two_retries (λ n. refl)
      (λ n. refl)

send_once_example :
    (d : RequestContext qt) × (send qt net (tag_body ∷ []) 1 "https://host" "2" post_room ≡ some d)
    × (d.promise.is_finished ≡ true)
    × (d.attempt_count ≤ 1)
send_once_example = send_once qt net (tag_body ∷ []) "https://host" "2" post_room not_retried
