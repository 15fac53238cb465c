-- ===== src/Network/Client/Settling.antt =====
-- Every request settles: the attempts of `executeAttempt` end, the promise is finished, and the
-- policy bounds how often the request goes out.
use chatdesktop.Prelude.{
  String, ℕ, zero, suc, ◌+◌, ◌-◌, ◌≤◌, ◌<◌, ◌≡◌, refl, sym, ap, ◌∙◌, Bool, true, false, not, ◌&&◌,
  ◌||◌, if◌then◌else◌, Option, none, some, List, [], ◌∷◌, ◌++◌, length, length-append, Bool-cases,
  arith, inl, inr,
}
use chatdesktop.Network.Policy.{is_idempotent_http_method}
use chatdesktop.Network.Client.{
  Qt, NetworkRequest, NetworkResponse, Interceptor, Exchange, Net, RequestContext, is_valid,
  request_started, resolved_url, apply_response_interceptors,
}
use chatdesktop.Network.Client.Attempts.{
  attempt, on_dispatched, on_finished, finished_response, execute_attempt, send, prepare_request,
  new_context, settle, invalid_response,
}
use chatdesktop.Network.Client.Laws.{should_retry_iff}

module _ (qt : Qt) where
  length-snoc :
      (xs : List (NetworkResponse qt)) (x : NetworkResponse qt)
      → length (xs ++ (x ∷ [])) ≡ suc (length xs)
  length-snoc xs x = omega (arith, length-append xs (x ∷ []))

  settled_at_most :
      (b : Bool) (xs : List (NetworkResponse qt)) (x : NetworkResponse qt)
      → length (if b then xs else xs ++ (x ∷ [])) ≤ suc (length xs)
  settled_at_most true xs x = omega arith
  settled_at_most false xs x = omega (arith, length-snoc xs x)

  settled_one :
      (b : Bool) (xs : List (NetworkResponse qt)) (x : NetworkResponse qt)
      → not b ≡ true
      → length (if b then xs else xs ++ (x ∷ [])) ≡ suc (length xs)
  settled_one true xs x h = absurd (cc)
  settled_one false xs x h = length-snoc xs x

  -- The retries that a context has left, and whether its request may be retried at all.
  abbrev pub left : RequestContext qt → ℕ
  left c = c.request.retry_policy.maximum_retries - c.complete_retries

  abbrev pub may_retry : NetworkRequest qt → Bool
  may_retry r = is_idempotent_http_method r.method || r.retry_policy.retry_non_idempotent_requests

  module _ (net : Net qt) (is : List (Interceptor qt)) where
    -- What an attempt that started from `c` leaves when it starts the timer, and when it does not.
    record Again (c d : RequestContext qt) : Type 0 where
      retried : may_retry c.request ≡ true
      fewer : left d < left c
      same_request : d.request ≡ c.request
      same_promise : d.promise ≡ c.promise
      counted : d.attempt_count ≡ c.attempt_count

    record Over (c d : RequestContext qt) (answered : Bool) : Type 0 where
      finished : d.promise.is_finished ≡ true
      at_most : d.attempt_count ≤ c.attempt_count
      at_most_one : length d.promise.results ≤ suc (length c.promise.results)
      one_result : answered ≡ true → length d.promise.results ≡ suc (length c.promise.results)

    abbrev After : RequestContext qt → Bool → Bool × RequestContext qt → Type 0
    After c a r = (r.0 ≡ true → Again c r.1) × (r.0 ≡ false → Over c r.1 a)

    -- The context that `executeAttempt` works on, its attempt counted.
    abbrev counted_in : RequestContext qt → RequestContext qt
    counted_in c = record c { attempt_count = suc c.attempt_count }

    retry_Again :
        (c : RequestContext qt) (r : NetworkResponse qt)
        → (on_finished qt net is c r).0 ≡ true
        → Again c (on_finished qt net is c r).1
    unfolding on_finished
    retry_Again c r h =
        let s =
          should_retry_iff qt c.request.retry_policy c.request.method r.error c.complete_retries in
        record {
          retried = ground arith;
          fewer = ground arith;
          same_request = ground arith;
          same_promise = ground arith;
          counted = ground arith;
        }

    stop_Over :
        (c : RequestContext qt) (r : NetworkResponse qt)
        → (on_finished qt net is c r).0 ≡ false
        → Over c (on_finished qt net is c r).1 (not (net.is_canceled_after c.attempt_count))
    unfolding on_finished
    stop_Over c r h =
        let n = length-snoc c.promise.results (apply_response_interceptors qt is c.request r) in
        record {
          finished = ground arith;
          at_most = ground arith;
          at_most_one = ground arith;
          one_result = λ e. ground arith;
        }

    on_dispatched-After :
        (c : RequestContext qt) (x : Option (Exchange qt))
        → After c (not (net.is_canceled_after c.attempt_count)) (on_dispatched qt net is c x)
    unfolding on_dispatched
    on_dispatched-After c none = (
      (λ e. cc),
      (λ e. record {
        finished = refl;
        at_most = omega arith;
        at_most_one = settled_at_most (net.is_canceled_after c.attempt_count) c.promise.results _;
        one_result = settled_one (net.is_canceled_after c.attempt_count) c.promise.results _;
      }),
    )
    on_dispatched-After c (some x) =
        let c1 = record c {
          log = c.log ++ (request_started c.request.request_id (resolved_url qt c.request) ∷ []);
        } in
        let r = finished_response qt net is c1 x in
        (
          (λ e.
              let a = retry_Again c1 r e in
              record {
                retried = a.retried;
                fewer = a.fewer;
                same_request = a.same_request;
                same_promise = a.same_promise;
                counted = a.counted;
              }),
          (λ e.
              let o = stop_Over c1 r e in
              record {
                finished = o.finished;
                at_most = o.at_most;
                at_most_one = o.at_most_one;
                one_result = o.one_result;
              }),
        )

    -- Whether nobody has cancelled when the attempt starts, nor when it ends.
    abbrev answers : RequestContext qt → Bool
    answers c =
        not (net.is_canceled_before c.attempt_count)
        && not (net.is_canceled_after (suc c.attempt_count))

    attempt-After : (c : RequestContext qt) → After (counted_in c) (answers c) (attempt qt net is c)
    unfolding attempt
    attempt-After c = elim (Bool-cases (net.is_canceled_before c.attempt_count)) [
      | inl e ↦ rw e (
        (λ e. cc),
        (λ e. record {
          finished = refl;
          at_most = omega arith;
          at_most_one = omega arith;
          one_result = λ e. cc;
        }),
      )
      | inr e ↦ rw e (on_dispatched-After (counted_in c) _)
    ]

    -- What the attempts from `c` come to when they end in `d`.
    pub record Settled (c d : RequestContext qt) : Type 0 where
      pub finished : d.promise.is_finished ≡ true
      pub at_most : d.attempt_count ≤ suc (c.attempt_count + left c)
      pub at_most_one : length d.promise.results ≤ suc (length c.promise.results)
      pub one_result :
          ((n : ℕ) → net.is_canceled_before n ≡ false)
          → ((n : ℕ) → net.is_canceled_after n ≡ false)
          → length d.promise.results ≡ suc (length c.promise.results)

    Again-Settled : (c b d : RequestContext qt) → Again (counted_in c) b → Settled b d → Settled c d
    Again-Settled c b d a s = record {
      finished = s.finished;
      at_most = omega (arith, a.counted, a.fewer, s.at_most);
      at_most_one = rw (ap (λ p. length p.results) (sym a.same_promise)) s.at_most_one;
      one_result = λ n k. s.one_result n k ∙ ap (λ p. suc (length p.results)) a.same_promise;
    }

    Over-Settled : (c d : RequestContext qt) → Over (counted_in c) d (answers c) → Settled c d
    Over-Settled c d o = record {
      finished = o.finished;
      at_most = omega (arith, o.at_most);
      at_most_one = o.at_most_one;
      one_result = λ n k. o.one_result (rw (n c.attempt_count, k (suc c.attempt_count)) refl);
    }

    -- From any context, with fuel for one attempt more than the retries that are left, the attempts
    -- come to an end.
    pub execute-Settled :
        (fuel : ℕ) (c : RequestContext qt)
        → left c < fuel
        → (d : RequestContext qt) × ((execute_attempt qt net is fuel c ≡ some d) × Settled c d)
    unfolding execute_attempt
    execute-Settled zero c h = ground arith
    execute-Settled (suc fuel) c h = elim (Bool-cases (attempt qt net is c).0) [
      | inl e ↦
          let a = (attempt-After c).0 e in
          let (d, (e1, s)) =
            execute-Settled fuel (attempt qt net is c).1 (omega (arith, a.fewer)) in
          (d, (rw e e1, Again-Settled c (attempt qt net is c).1 d a s))
      | inr e ↦ ((attempt qt net is c).1, (rw e refl, Over-Settled c _ ((attempt-After c).1 e)))
    ]

    module _ (base : qt.Url) (fresh_id : String) (r0 : NetworkRequest qt) where
      abbrev pub prepared : NetworkRequest qt
      prepared = prepare_request qt net is base fresh_id r0

      abbrev refused : RequestContext qt
      refused =
          settle qt false (new_context qt net is prepared)
            (apply_response_interceptors qt is prepared (invalid_response qt net is prepared))

      -- With more fuel than the prepared request's policy allows retries, `send` comes to an end:
      -- its promise is finished and holds at most one response, and the request was dispatched at
      -- most once more than the policy's retries.
      pub send_settles :
          (fuel : ℕ)
          → prepared.retry_policy.maximum_retries < fuel
          → (d : RequestContext qt) × (send qt net is fuel base fresh_id r0 ≡ some d)
            × (d.promise.is_finished ≡ true)
            × (d.attempt_count ≤ suc prepared.retry_policy.maximum_retries)
            × (length d.promise.results ≤ 1)
      unfolding send
      send_settles fuel h = elim (Bool-cases (is_valid qt prepared)) [
        | inl e ↦
            let (d, (e1, s)) =
              execute-Settled fuel (new_context qt net is prepared) (omega arith) in
            (d, rw e e1, s.finished, omega (arith, s.at_most), s.at_most_one)
        | inr e ↦ (refused, rw e refl, refl, omega arith, omega arith)
      ]

      -- With more fuel than the prepared request's policy allows retries, and a caller that never
      -- cancels, the promise holds exactly one response.
      pub send_answers :
          (fuel : ℕ)
          → prepared.retry_policy.maximum_retries < fuel
          → ((n : ℕ) → net.is_canceled_before n ≡ false)
          → ((n : ℕ) → net.is_canceled_after n ≡ false)
          → (d : RequestContext qt) × (send qt net is fuel base fresh_id r0 ≡ some d)
            × (length d.promise.results ≡ 1)
      unfolding send
      send_answers fuel h n k = elim (Bool-cases (is_valid qt prepared)) [
        | inl e ↦
            let (d, (e1, s)) =
              execute-Settled fuel (new_context qt net is prepared) (omega arith) in
            (d, rw e e1, s.one_result n k)
        | inr e ↦ (refused, rw e refl, refl)
      ]

      -- A request that is not idempotent, under a policy without leave to retry such, ends after a
      -- single attempt: one step of fuel is enough and it was dispatched at most once.
      pub send_once :
          may_retry prepared ≡ false
          → (d : RequestContext qt) × (send qt net is 1 base fresh_id r0 ≡ some d)
            × (d.promise.is_finished ≡ true)
            × (d.attempt_count ≤ 1)
      unfolding send execute_attempt
      send_once h =
          let c = new_context qt net is prepared in
          elim (Bool-cases (is_valid qt prepared)) [
            | inr e ↦ (refused, rw e refl, refl, omega arith)
            | inl e ↦ elim (Bool-cases (attempt qt net is c).0) [
              | inl e1 ↦ let a = (attempt-After c).0 e1 in ground (arith, a.retried)
              | inr e1 ↦
                  let o = (attempt-After c).1 e1 in
                  ((attempt qt net is c).1, rw (e, e1) refl, o.finished, o.at_most)
            ]
          ]
