-- ===== src/Network/Client/Laws.antt =====
-- What the client promises of one request: it settles, it retries only what it may, and what the
-- errors, delays and interceptors come to.
use chatdesktop.Prelude.{
  ℕ, ◌+◌, ◌/◌, ◌≤◌, ◌<◌, ◌^◌, ◌≡◌, refl, ◌≢◌, ◌↔◌, String, true, not, ◌&&◌, ◌||◌, Option, none,
  some, List, [], ◌∷◌, ◌++◌, any_of, is_empty, if◌then◌else◌, arith, reverse, ℤ, pos, negsuc, le,
  lt, ap, ◌∙◌, if_elim,
}
use mathlib.Core.List.{reverse-append}
use chatdesktop.Network.Policy.{
  HttpMethod, NetworkError, no_error, error_eq, error_code, is_idempotent_http_method, should_retry,
  delay_for_retry, backed_off, RetryPolicy, http_method_to_string,
}
use chatdesktop.Network.Client.{
  Qt, NetworkRequest, NetworkResponse, Interceptor, apply_response_interceptors,
  run_response_interceptors, Reply, retry_delay, jitter_limit, plus, map_http_status,
  create_response, is_success, reply_status_error, map_network_error, read_json, response_message,
  status_of, parse_body, dispatch, dispatch_method, Call, get_call, post_call, put_call,
  custom_call, delete_call, head_call,
}

-- A status gives no error exactly when it is not zero and below 400: informational and redirect
-- statuses pass too.
pub map_http_status_iff :
    (code : ℕ) → (map_http_status code ≡ no_error) ↔ ((code ≢ 0) × (code < 400))
unfolding map_http_status
map_http_status_iff code = ground arith

-- A request is retried exactly when retries are left, its error is in the policy's set, and either
-- its method is idempotent or the policy allows the others.
pub should_retry_iff :
    (qt : Qt) (p : RetryPolicy qt.float) (method : HttpMethod) (error : NetworkError)
    (completed : ℕ)
    → (should_retry qt.float p method error completed ≡ true) ↔ (
        (completed < p.maximum_retries)
        × ((any_of (error_eq error) p.retryable_errors ≡ true)
            × ((is_idempotent_http_method method || p.retry_non_idempotent_requests) ≡ true)))
unfolding should_retry
should_retry_iff qt p method error completed = ground arith

module _ (qt : Qt) where
  jittered :
      (bounded : ℕ → ℕ) (m : ℕ) (d : ℤ)
      → bounded (jitter_limit qt d) < jitter_limit qt d
      → le d (pos m) ≡ true
      → le (plus qt d (bounded (jitter_limit qt d))) (pos (m + m / 4)) ≡ true
  jittered bounded m (pos n) b h = ground arith
  jittered bounded m (negsuc n) b h = ground arith

  min-le : (d : ℤ) (m : ℕ) → le (if lt d (pos m) then d else pos m) (pos m) ≡ true
  min-le (pos n) m = ground arith
  min-le (negsuc n) m = refl

  weaker : (d : ℤ) (m : ℕ) → le d (pos m) ≡ true → le d (pos (m + m / 4)) ≡ true
  weaker (pos n) m h = ground arith
  weaker (negsuc n) m h = refl

  limit_positive : (d : ℤ) → 0 < jitter_limit qt d
  limit_positive (pos n) = omega arith
  limit_positive (negsuc n) = omega arith

  delay_at_most :
      (bounded : ℕ → ℕ)
      → ((n : ℕ) → 0 < n → bounded n < n)
      → (p : RetryPolicy qt.float) (k : ℕ)
      → le (retry_delay qt bounded p k) (pos (p.maximum_delay_ms + p.maximum_delay_ms / 4)) ≡ true
  unfolding retry_delay delay_for_retry
  delay_at_most bounded h p k =
      let cast =
        qt.float.to_int
          (backed_off qt.float p.back_off_multiplier k (qt.float.of_int p.initial_delay_ms)) in
      let d = if lt cast (pos p.maximum_delay_ms) then cast else pos p.maximum_delay_ms in
      let small = min-le cast p.maximum_delay_ms in
      if_elim (λ (x : ℤ). le x (pos (p.maximum_delay_ms + p.maximum_delay_ms / 4)) ≡ true)
        (not p.use_jitter) (λ e. weaker d p.maximum_delay_ms small)
        (λ e.
          jittered bounded p.maximum_delay_ms d (h (jitter_limit qt d) (limit_positive d)) small)

  in_range : (d : ℤ) (n : ℕ) → n < 2 ^ 31 → le d (pos n) ≡ true → lt d (pos (2 ^ 31)) ≡ true
  in_range (pos k) n h e = ground arith
  in_range (negsuc k) n h e = refl

  -- The delay before a retry is at most the policy's maximum and a quarter of it, and so the sum is an
  -- `int`, when the generator stays below its bound and that maximum and a quarter is an `int`. This
  -- holds whatever the cast to `int` gives for a value out of range; the delay may be negative there.
  pub retry_delay-le :
      (bounded : ℕ → ℕ)
      → ((n : ℕ) → 0 < n → bounded n < n)
      → (p : RetryPolicy qt.float) → p.maximum_delay_ms + p.maximum_delay_ms / 4 < 2 ^ 31
      → (k : ℕ)
      → (le (retry_delay qt bounded p k) (pos (p.maximum_delay_ms + p.maximum_delay_ms / 4)) ≡ true)
        × (lt (retry_delay qt bounded p k) (pos (2 ^ 31)) ≡ true)
  retry_delay-le bounded h p fits k =
      let most = delay_at_most bounded h p k in
      (most, in_range (retry_delay qt bounded p k) _ fits most)

  run_response-append :
      (xs ys : List (Interceptor qt)) (q : NetworkRequest qt) (r : NetworkResponse qt)
      → run_response_interceptors qt (xs ++ ys) q r
        ≡ run_response_interceptors qt ys q (run_response_interceptors qt xs q r)
  unfolding run_response_interceptors
  run_response-append [] ys q r = refl
  run_response-append (x ∷ xs) ys q r = run_response-append xs ys q (x.interceptor_response q r)

  apply_response-append :
      (xs ys : List (Interceptor qt)) (q : NetworkRequest qt) (r : NetworkResponse qt)
      → apply_response_interceptors qt (xs ++ ys) q r
        ≡ apply_response_interceptors qt xs q (apply_response_interceptors qt ys q r)
  unfolding apply_response_interceptors
  apply_response-append xs ys q r =
      rw (reverse-append xs ys) (run_response-append (reverse ys) (reverse xs) q r)

  -- The interceptor added last sees the response first, and the first one has the last word.
  abbrev pub unwound :
      List (Interceptor qt) → NetworkRequest qt → NetworkResponse qt → NetworkResponse qt
  unwound [] q r = r
  unwound (i ∷ is) q r = i.interceptor_response q (unwound is q r)

  -- Every response interceptor is called once on the response, in the reverse of the order in which
  -- they were added: the result is the first one's answer to what the later ones made of it.
  pub apply_response-unwinds :
      (is : List (Interceptor qt)) (q : NetworkRequest qt) (r : NetworkResponse qt)
      → apply_response_interceptors qt is q r ≡ unwound is q r
  unfolding apply_response_interceptors run_response_interceptors
  apply_response-unwinds [] q r = refl
  apply_response-unwinds (i ∷ is) q r =
      apply_response-append (i ∷ []) is q r
      ∙ ap (i.interceptor_response q) (apply_response-unwinds is q r)

  error_eq-no_error : (e : NetworkError) → error_eq e no_error ≡ true → e ≡ no_error
  unfolding error_eq error_code
  error_eq-no_error e h = ground arith

  parse_body-no_error :
      (body : String) (e : NetworkError) (text : String) (p : qt.Json × Option String)
      → error_eq (parse_body qt body e text p).1.0 no_error ≡ true
      → (error_eq e no_error ≡ true) × (p.1 ≡ none)
  unfolding parse_body error_eq error_code
  parse_body-no_error body e text (json, none) h = (h, refl)
  parse_body-no_error body e text (json, some m) h = ground arith

  read_json-no_error :
      (q : NetworkRequest qt) (reply : Reply qt) (e : NetworkError) (text : String)
      → error_eq (read_json qt q reply e text).1.0 no_error ≡ true
      → (error_eq e no_error ≡ true)
        × ((q.parse_json_response && not (is_empty (qt.trimmed reply.contents))) ≡ true
            → (qt.parse_json reply.contents).1 ≡ none)
  unfolding read_json
  read_json-no_error q reply e text h =
      let p = parse_body-no_error reply.contents e text (qt.parse_json reply.contents) in
      ground arith

  reply_status-no_error :
      (reply : Reply qt)
      → error_eq (reply_status_error qt reply) no_error ≡ true
      → map_network_error qt reply ≡ no_error
  unfolding reply_status_error
  reply_status-no_error reply h = error_eq-no_error (map_network_error qt reply) (ground arith)

  -- A response made from a reply whose body has to be parsed and is not blank counts as a success
  -- only if Qt reported no error that the client maps, the status is 2xx, and the body did parse.
  pub create_response-is_success :
      (q : NetworkRequest qt) (reply : Reply qt) (ms n : ℕ)
      → (q.parse_json_response && not (is_empty (qt.trimmed reply.contents))) ≡ true
      → is_success qt (create_response qt q reply ms n) ≡ true
      → (map_network_error qt reply ≡ no_error)
        × (200 ≤ status_of qt reply.status)
        × (status_of qt reply.status < 300)
        × ((qt.parse_json reply.contents).1 ≡ none)
  unfolding create_response is_success error_eq error_code
  create_response-is_success q reply ms n hb h =
      let e = reply_status_error qt reply in
      let text = if error_eq e no_error then "" else response_message qt reply e in
      let parsed = read_json-no_error q reply e text (ground arith) in
      (reply_status-no_error reply parsed.0, ground arith, ground arith, parsed.1 hb)

  -- The name of the verb that a call of the access manager sends.
  unfoldable pub verb : Call qt → String
  verb (get_call q) = "GET"
  verb (post_call q body) = "POST"
  verb (put_call q body) = "PUT"
  verb (custom_call q name body) = name
  verb (delete_call q) = "DELETE"
  verb (head_call q) = "HEAD"

  dispatch_method-verb :
      (m : HttpMethod) (body : String) (q : qt.QtRequest)
      → verb (dispatch_method qt m body q) ≡ http_method_to_string m
  unfolding verb dispatch_method http_method_to_string
  dispatch_method-verb m body q = ground arith

  -- The access manager is asked for the verb that the request's method names.
  pub verb-dispatch :
      (r : NetworkRequest qt) (q : qt.QtRequest)
      → verb (dispatch qt r q) ≡ http_method_to_string r.method
  unfolding dispatch
  verb-dispatch r q = dispatch_method-verb r.method r.body q
