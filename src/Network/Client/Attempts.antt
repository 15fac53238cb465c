-- ===== src/Network/Client/Attempts.antt =====
-- `NetworkClient::executeAttempt`, `send` and the verbs, in src/core/network/network_client.cpp.
-- A retry is a timer whose slot runs `executeAttempt` again: a round trip through the event loop is
-- one recursive call here, on fuel.
use chatdesktop.Prelude.{
  ℕ, zero, suc, String, Bool, true, false, not, ◌&&◌, Option, none, some, ℤ, pos, negsuc, List, [],
  ◌∷◌, ◌++◌, is_empty, if◌then◌else◌,
}
use chatdesktop.Network.Policy.{
  get, post, put, patch, delete, invalid_request, invalid_url, timeout, should_retry,
}
use chatdesktop.Network.Client.{
  Qt, NetworkRequest, NetworkResponse, new_network_request, set_json_body, resolved_url, is_valid,
  Interceptor, apply_request_interceptors, apply_response_interceptors, build_qt_request, dispatch,
  create_response, Exchange, Net, request_started, request_finished, single_shot, Promise,
  RequestContext, await_reply, retry_delay,
}

-- `qMax(0, retry)`.
unfoldable pub clamp : ℤ → ℕ
clamp (pos n) = n
clamp (negsuc n) = 0

module _ (qt : Qt) where
  open qt use {Url, Query, JsonObject, new_url, is_relative, resolved}

  abbrev finish : Promise qt → Promise qt
  finish p = record p { is_finished = true }

  -- `addResult` and `finish`; a canceled promise takes no result.
  abbrev pub settle : Bool → RequestContext qt → NetworkResponse qt → RequestContext qt
  settle is_canceled c r = record c {
    promise = record {
      results = if is_canceled then c.promise.results else c.promise.results ++ (r ∷ []);
      is_finished = true;
    };
  }

  -- The response of a request that never became a reply.
  abbrev rejected : NetworkRequest qt → Url → ℕ → ℕ → NetworkResponse qt
  rejected request url attempts duration = record {
    status_code = 0;
    body = "";
    json = qt.null_json;
    headers = [];
    error = invalid_request;
    error_message = "Unable to dispatch network request";
    request_url = url;
    request_id = request.request_id;
    attempt_count = attempts;
    duration_ms = duration;
  }

  module _ (net : Net qt) (interceptors : List (Interceptor qt)) where
    -- The response of a finished reply, the timeout's error put over it.
    unfoldable pub finished_response : RequestContext qt → Exchange qt → NetworkResponse qt
    finished_response c x =
        let ended = await_reply qt net x.signals x.reply in
        let response =
          create_response qt c.request ended.1 (net.elapsed c.attempt_count) c.attempt_count in
        if ended.0
        then record response { error = timeout; error_message = "The request exceeded its timeout" }
        else response

    -- What the `finished` slot leaves: the context and whether it started the retry timer.
    unfoldable pub on_finished : RequestContext qt → NetworkResponse qt → Bool × RequestContext qt
    on_finished c response =
        let c1 = record c {
          log =
              c.log
              ++ (request_finished response.request_id response.request_url response.status_code
                  ∷ []);
        } in
        let retry =
          should_retry qt.float c.request.retry_policy c.request.method response.error
            c.complete_retries in
        if retry && not (net.is_canceled_after c.attempt_count)
        then (
          true,
          record c1 {
            complete_retries = suc c1.complete_retries;
            log =
                c1.log
                ++ (single_shot (
                      retry_delay qt (net.bounded c.attempt_count) c.request.retry_policy
                        c.complete_retries)
                    ∷ []);
          },
        )
        else (
          false,
          settle (net.is_canceled_after c.attempt_count) c1
              (apply_response_interceptors qt interceptors c.request response),
        )

    -- From the dispatch on, `c` with its attempt counted.
    unfoldable pub on_dispatched :
        RequestContext qt → Option (Exchange qt) → Bool × RequestContext qt
    unfolding on_finished finished_response
    on_dispatched c none = (
      false,
      settle (net.is_canceled_after c.attempt_count) c (
          apply_response_interceptors qt interceptors c.request (
            rejected c.request (resolved_url qt c.request) c.attempt_count
              (net.elapsed c.attempt_count))),
    )
    on_dispatched c (some x) =
        let c1 = record c {
          log = c.log ++ (request_started c.request.request_id (resolved_url qt c.request) ∷ []);
        } in
        on_finished c1 (finished_response c1 x)

    -- One run of `executeAttempt` up to the timer or the end.
    unfoldable pub attempt : RequestContext qt → Bool × RequestContext qt
    unfolding on_dispatched
    attempt c =
        if net.is_canceled_before c.attempt_count
        then (false, record c { promise = finish c.promise })
        else let c1 = record c { attempt_count = suc c.attempt_count } in
          on_dispatched c1
            (net.exchange c1.attempt_count (dispatch qt c.request (build_qt_request qt c.request)))

    -- `executeAttempt` and the timers it starts; `none` is the end of the fuel.
    unfoldable pub execute_attempt : ℕ → RequestContext qt → Option (RequestContext qt)
    unfolding attempt
    execute_attempt zero c = none
    execute_attempt (suc fuel) c =
        let rest = execute_attempt fuel (attempt c).1 in
        if (attempt c).0 then rest else some (attempt c).1

    -- `resolveUrl` against the base URL, and `send` up to the first attempt.
    unfoldable pub resolve_url : Url → Url → Url
    resolve_url base url = if not (is_relative url) then url else resolved base url

    -- `fresh_id` is `createRequestId()`.
    unfoldable pub prepare_request : Url → String → NetworkRequest qt → NetworkRequest qt
    unfolding resolve_url
    prepare_request base fresh_id r = apply_request_interceptors qt interceptors (record r {
      url = resolve_url base r.url;
      request_id = if is_empty r.request_id then fresh_id else r.request_id;
    })

    abbrev pub new_context : NetworkRequest qt → RequestContext qt
    new_context r = record {
      request = r;
      promise = record { results = []; is_finished = false };
      complete_retries = 0;
      attempt_count = 0;
      log = [];
    }

    abbrev pub invalid_response : NetworkRequest qt → NetworkResponse qt
    invalid_response r = record (rejected r r.url 1 0) {
      error = invalid_url;
      error_message = "The request URL is invalid";
    }

    unfoldable pub send : ℕ → Url → String → NetworkRequest qt → Option (RequestContext qt)
    unfolding prepare_request execute_attempt
    send fuel base fresh_id r0 =
        let r = prepare_request base fresh_id r0 in
        let c = new_context r in
        if not (is_valid qt r)
        then some
            (settle false c (apply_response_interceptors qt interceptors r (invalid_response r)))
        else execute_attempt fuel c

  -- What the verbs hand to `send`.
  unfoldable pub get_request : String → ℤ → Query → NetworkRequest qt
  unfolding clamp
  get_request path retry query =
      let r = new_network_request qt (new_url path) get in
      record r {
        query = query;
        retry_policy = record r.retry_policy { maximum_retries = clamp retry };
      }

  unfoldable pub post_request : String → JsonObject → NetworkRequest qt
  post_request path body = set_json_body qt (new_network_request qt (new_url path) post) body

  unfoldable pub put_request : String → JsonObject → NetworkRequest qt
  put_request path body = set_json_body qt (new_network_request qt (new_url path) put) body

  unfoldable pub patch_request : String → JsonObject → NetworkRequest qt
  patch_request path body = set_json_body qt (new_network_request qt (new_url path) patch) body

  unfoldable pub delete_request : String → NetworkRequest qt
  delete_request path = new_network_request qt (new_url path) delete
