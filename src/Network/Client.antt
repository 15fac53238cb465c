-- ===== src/Network/Client.antt =====
-- src/core/network/network_client.cpp with network_request.hpp and network_response.hpp.
-- Qt's URL, JSON and request types are parameters. What happens outside the client during one
-- request is the record `Net`: what each attempt's reply does, whether the caller has cancelled the
-- future by then, the clock and the random numbers. Signals and timers go to a log.
pub mod Attempts
pub mod Laws
pub mod Settling
use chatdesktop.Prelude.{
  ℕ, zero, suc, ◌+◌, ◌/◌, String, Bool, true, false, not, ◌&&◌, Option, none, some, List, [], ◌∷◌,
  ◌++◌, reverse, is_some, str_eq, is_empty, ltb, leb, ◌==◌, if◌then◌else◌, max, Option-cases, ℤ,
  pos, negsuc, ◌-◌,
}
use chatdesktop.Network.Policy.{
  HttpMethod, get, post, put, patch, delete, head, NetworkError, no_error, invalid_request,
  invalid_url, connection_refused, remote_host_close, host_not_found, operation_cancelled, timeout,
  ssl_handshake_failed, network_session_failed, temporary_network_failure, bad_request,
  unauthorized, forbidden, not_found, conflict, validation_failed, too_many_request,
  internal_server_error, bad_gateway, service_unavailable, gateway_timeout, json_parse_error,
  unknown_network_error, unknown_http_error, error_eq, network_error_to_string, FloatApi,
  RetryPolicy, default_policy, should_retry, delay_for_retry,
}

-- `QNetworkReply::NetworkError`: the values that `mapNetworkError` names, and the rest.
pub data ReplyError : Type 0 where
  no_reply_error connection_refused_error remote_host_closed_error : ReplyError
  host_not_found_error timeout_error operation_canceled_error : ReplyError
  ssl_handshake_failed_error temporary_network_failure_error : ReplyError
  network_session_failed_error other_error : ReplyError

-- `QByteArray` and `QString` are both texts here. `parse_json` is `QJsonDocument::fromJson`: the
-- document and the message of the parse error, if there is one.
pub record Qt : Type 1 where
  pub float : FloatApi
  pub Url : Type 0
  pub Query : Type 0
  pub Json : Type 0
  pub JsonObject : Type 0
  pub QtRequest : Type 0
  pub Chain : Type 0
  pub new_url : String → Url
  pub is_relative : Url → Bool
  pub resolved : Url → Url → Url
  pub set_query : Url → Query → Url
  pub is_valid_url : Url → Bool
  pub scheme : Url → String
  pub host : Url → String
  pub no_query : Query
  pub query_is_empty : Query → Bool
  pub null_json : Json
  pub parse_json : String → Json × Option String
  pub is_object : Json → Bool
  pub message : Json → String
  pub to_json : JsonObject → String
  pub trimmed : String → String
  pub new_request : Url → QtRequest
  pub set_user_agent : QtRequest → String → QtRequest
  pub set_raw_header : QtRequest → String → String → QtRequest

-- `QHash<QByteArray, QByteArray>` in the order of its iteration.
abbrev pub Headers : Type 0
Headers = List (String × String)

unfoldable pub insert_header : Headers → String → String → Headers
insert_header [] name value = (name, value) ∷ []
insert_header ((n, v) ∷ hs) name value =
    let rest = insert_header hs name value in
    if str_eq n name then (name, value) ∷ hs else (n, v) ∷ rest

unfoldable pub map_http_status : ℕ → NetworkError
map_http_status code =
    if leb 200 code && ltb code 300
    then no_error
    else if code == 0
    then unknown_network_error
    else if code == 400
    then bad_request
    else if code == 401
    then unauthorized
    else if code == 403
    then forbidden
    else if code == 404
    then not_found
    else if code == 409
    then conflict
    else if code == 422
    then validation_failed
    else if code == 429
    then too_many_request
    else if code == 500
    then internal_server_error
    else if code == 502
    then bad_gateway
    else if code == 503
    then service_unavailable
    else if code == 504
    then gateway_timeout
    else if leb 500 code
    then internal_server_error
    else if leb 400 code
    then unknown_http_error
    else no_error

module _ (qt : Qt) where
  open qt use {
    float, Url, Query, Json, JsonObject, QtRequest, Chain, new_url, is_relative, resolved,
    set_query, is_valid_url, scheme, host, no_query, query_is_empty, null_json, parse_json,
    is_object, message, to_json, trimmed, new_request, set_user_agent, set_raw_header,
  }

  pub record NetworkRequest : Type 0 where
    pub url : Url
    pub method : HttpMethod
    pub body : String
    pub headers : Headers
    pub query : Query
    pub timeout_ms : ℕ
    pub parse_json_response : Bool
    pub requires_authentication : Bool
    pub retry_policy : RetryPolicy float
    pub request_id : String
    pub operation_name : String

  -- `NetworkRequest request;` followed by its `url` and `method`.
  abbrev pub new_network_request : Url → HttpMethod → NetworkRequest
  new_network_request u m = record {
    url = u;
    method = m;
    body = "";
    headers = [];
    query = no_query;
    timeout_ms = 30000;
    parse_json_response = true;
    requires_authentication = true;
    retry_policy = default_policy float;
    request_id = "";
    operation_name = "";
  }

  unfoldable pub set_json_body : NetworkRequest → JsonObject → NetworkRequest
  set_json_body r object = record r {
    body = to_json object;
    headers = insert_header r.headers "Content-Type" "application/json";
  }

  unfoldable pub resolved_url : NetworkRequest → Url
  resolved_url r = if not (query_is_empty r.query) then set_query r.url r.query else r.url

  unfoldable pub is_valid : NetworkRequest → Bool
  is_valid r =
      let final_url = resolved_url r in
      is_valid_url final_url
      && (not (is_empty (scheme final_url)) && not (is_empty (host final_url)))

  pub record NetworkResponse : Type 0 where
    pub status_code : ℕ
    pub body : String
    pub json : Json
    pub headers : Headers
    pub error : NetworkError
    pub error_message : String
    pub request_url : Url
    pub request_id : String
    pub attempt_count : ℕ
    pub duration_ms : ℕ

  unfoldable pub is_success : NetworkResponse → Bool
  is_success r = error_eq r.error no_error && (leb 200 r.status_code && ltb r.status_code 300)

  unfoldable pub has_error : NetworkResponse → Bool
  unfolding is_success
  has_error r = not (is_success r)

  -- `INetworkInterceptor`; a null pointer is dropped by `addInterceptor`.
  pub record Interceptor : Type 0 where
    pub intercept_request : NetworkRequest → NetworkRequest
    pub interceptor_response : NetworkRequest → NetworkResponse → NetworkResponse

  unfoldable pub add_interceptor : List Interceptor → Option Interceptor → List Interceptor
  add_interceptor is none = is
  add_interceptor is (some i) = is ++ (i ∷ [])

  unfoldable pub apply_request_interceptors : List Interceptor → NetworkRequest → NetworkRequest
  apply_request_interceptors [] r = r
  apply_request_interceptors (i ∷ is) r = apply_request_interceptors is (i.intercept_request r)

  unfoldable pub run_response_interceptors :
      List Interceptor → NetworkRequest → NetworkResponse → NetworkResponse
  run_response_interceptors [] q r = r
  run_response_interceptors (i ∷ is) q r =
      run_response_interceptors is q (i.interceptor_response q r)

  -- From `rbegin` to `rend`.
  unfoldable pub apply_response_interceptors :
      List Interceptor → NetworkRequest → NetworkResponse → NetworkResponse
  apply_response_interceptors is q r = run_response_interceptors (reverse is) q r

  add_headers : QtRequest → Headers → QtRequest
  add_headers q [] = q
  add_headers q ((n, v) ∷ hs) = add_headers (set_raw_header q n v) hs

  pub build_qt_request : NetworkRequest → QtRequest
  build_qt_request r =
      add_headers
        (set_raw_header (set_user_agent (new_request (resolved_url r)) "Qt-Desktop") "Accept"
          "application/json")
        r.headers

  -- The calls of `QNetworkAccessManager`.
  pub data Call : Type 0 where
    get_call : QtRequest → Call
    post_call put_call : QtRequest → String → Call
    custom_call : QtRequest → String → String → Call
    delete_call head_call : QtRequest → Call

  unfoldable pub dispatch_method : HttpMethod → String → QtRequest → Call
  dispatch_method get body q = get_call q
  dispatch_method post body q = post_call q body
  dispatch_method put body q = put_call q body
  dispatch_method patch body q = custom_call q "PATCH" body
  dispatch_method delete body q =
      if is_empty body then delete_call q else custom_call q "DELETE" body
  dispatch_method head body q = head_call q

  unfoldable pub dispatch : NetworkRequest → QtRequest → Call
  unfolding dispatch_method
  dispatch r q = dispatch_method r.method r.body q

  -- A finished `QNetworkReply`; without a status the attribute is invalid and reads as zero.
  pub record Reply : Type 0 where
    pub contents : String
    pub status : Option ℕ
    pub raw_headers : Headers
    pub error : ReplyError
    pub error_string : String

  unfoldable pub status_of : Option ℕ → ℕ
  status_of none = 0
  status_of (some n) = n

  abbrev or_status : Option ℕ → NetworkError
  or_status (some n) = no_error
  or_status none = unknown_network_error

  unfoldable pub map_error : ReplyError → Option ℕ → NetworkError
  map_error no_reply_error s = no_error
  map_error connection_refused_error s = connection_refused
  map_error remote_host_closed_error s = remote_host_close
  map_error host_not_found_error s = host_not_found
  map_error timeout_error s = timeout
  map_error operation_canceled_error s = operation_cancelled
  map_error ssl_handshake_failed_error s = ssl_handshake_failed
  map_error temporary_network_failure_error s = temporary_network_failure
  map_error network_session_failed_error s = network_session_failed
  map_error other_error s = or_status s

  unfoldable pub map_network_error : Reply → NetworkError
  unfolding map_error
  map_network_error reply = map_error reply.error reply.status

  unfoldable pub collect_headers : Headers → Headers → Headers
  collect_headers [] acc = acc
  collect_headers ((n, v) ∷ hs) acc = collect_headers hs (insert_header acc n v)

  -- The error, from the reply first and the status then.
  unfoldable pub reply_status_error : Reply → NetworkError
  reply_status_error reply =
      let error = map_network_error reply in
      if error_eq error no_error then map_http_status (status_of reply.status) else error

  -- The message: the backend's, else Qt's, else the error's name.
  unfoldable pub response_message : Reply → NetworkError → String
  response_message reply error =
      let parsed = parse_json reply.contents in
      let backend = if not (is_some parsed.1) && is_object parsed.0 then message parsed.0 else "" in
      let text = if not (is_empty backend) then backend else reply.error_string in
      if is_empty text then network_error_to_string error else text

  -- The body's document, and the error and message it leaves.
  unfoldable pub parse_body :
      String → NetworkError → String → Json × Option String → Json × (NetworkError × String)
  parse_body body error text (json, none) = (json, (error, text))
  parse_body body error text (json, some e) =
      if error_eq error no_error then (json, (json_parse_error, e)) else (json, (error, text))

  unfoldable pub read_json :
      NetworkRequest → Reply → NetworkError → String → Json × (NetworkError × String)
  read_json request reply error text =
      if request.parse_json_response && not (is_empty (trimmed reply.contents))
      then parse_body reply.contents error text (parse_json reply.contents)
      else (null_json, (error, text))

  unfoldable pub create_response : NetworkRequest → Reply → ℕ → ℕ → NetworkResponse
  create_response request reply duration attempts =
      let error = reply_status_error reply in
      let text = if error_eq error no_error then "" else response_message reply error in
      let parsed = read_json request reply error text in
      record {
        status_code = status_of reply.status;
        body = reply.contents;
        json = parsed.0;
        headers = collect_headers reply.raw_headers [];
        error = parsed.1.0;
        error_message = parsed.1.1;
        request_url = resolved_url request;
        request_id = request.request_id;
        attempt_count = attempts;
        duration_ms = duration;
      }

  -- What a reply signals before it finishes: the handshake with the peer's chain, or our timer.
  pub data ReplySignal : Type 0 where
    encrypted : Chain → ReplySignal
    timed_out : ReplySignal

  -- One attempt's reply: its signals and how it ends when nobody aborts it.
  pub record Exchange : Type 0 where
    pub signals : List ReplySignal
    pub reply : Reply

  pub record Net : Type 0 where
    -- `none` is a null reply.
    pub exchange : ℕ → Call → Option Exchange
    -- How Qt finishes a reply after `abort`.
    pub abort : Reply → Reply
    -- `CertificateChainValidator::validate(...).isValid()`.
    pub is_valid_chain : Chain → Bool
    -- The future's cancellation when an attempt starts and when it ends.
    pub is_canceled_before : ℕ → Bool
    pub is_canceled_after : ℕ → Bool
    pub elapsed : ℕ → ℕ
    -- `QRandomGenerator::global()->bounded(n)` at a retry.
    pub bounded : ℕ → ℕ → ℕ

  pub data Event : Type 0 where
    request_started : String → Url → Event
    request_finished : String → Url → ℕ → Event
    single_shot : ℤ → Event

  -- The promise's results so far and whether it is finished.
  pub record Promise : Type 0 where
    pub results : List NetworkResponse
    pub is_finished : Bool

  pub record RequestContext : Type 0 where
    pub request : NetworkRequest
    pub promise : Promise
    pub complete_retries : ℕ
    pub attempt_count : ℕ
    pub log : List Event

  abbrev finish : Promise → Promise
  finish p = record p { is_finished = true }

  abbrev add_result : Promise → NetworkResponse → Promise
  add_result p r = record p { results = p.results ++ (r ∷ []) }

  -- The timer's and the handshake's slots; `abort` finishes the reply at once.
  unfoldable pub await_reply : Net → List ReplySignal → Reply → Bool × Reply
  await_reply net [] reply = (false, reply)
  await_reply net (timed_out ∷ ss) reply = (true, net.abort reply)
  await_reply net (encrypted chain ∷ ss) reply =
      let rest = await_reply net ss reply in
      if not (net.is_valid_chain chain) then (false, net.abort reply) else rest

  -- `qMax(1, delay_ms / 4)`; a quotient that is not positive counts as zero.
  abbrev pub jitter_limit : ℤ → ℕ
  jitter_limit (pos n) = max 1 (n / 4)
  jitter_limit (negsuc n) = 1

  -- `delay_ms + n` with the result of `bounded(n)`, which is below `n`.
  abbrev pub plus : ℤ → ℕ → ℤ
  plus (pos n) k = pos (n + k)
  plus (negsuc n) k = if leb k n then negsuc (n - k) else pos (k - suc n)

  unfoldable pub retry_delay : (ℕ → ℕ) → RetryPolicy float → ℕ → ℤ
  retry_delay bounded p retry_number =
      let delay_ms = delay_for_retry float p retry_number in
      if not p.use_jitter then delay_ms else plus delay_ms (bounded (jitter_limit delay_ms))
