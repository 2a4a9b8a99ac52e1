-- ===== src/HttpClient.antt =====
-- internal/httpclient/httpclient.go: requests with retries. net/http, the context, the clock and the
-- random numbers are no part of the repository: `Transport` is a parameter, over the state `W` of the
-- world outside.
pub mod Retries
pub mod Backoff
use noted_runner.Prelude.{
  ℕ, zero, suc, ◌+◌, ◌-◌, ◌*◌, ◌^◌, ◌%◌, ◌≡◌, Bool, true, false, not, ◌&&◌, Option, none, some,
  List, [], ◌∷◌, ltb, leb, ◌==◌, if◌then◌else◌, Text, ascii, ◌++◌,
}
use noted_runner.Strings.{itoa}
use noted_runner.Configs.{HttpRetryPolicyConfig}

-- an error, as far as `shouldRetryError` looks at it
pub data HttpError : Type 0 where
  -- context.Canceled or context.DeadlineExceeded
  context_error : HttpError
  -- a net.Error, with what Timeout reports
  net_error : Bool → HttpError
  other_error : Text → HttpError

-- the response: its status, and whether its body has been drained and closed
pub record Response : Type 0 where
  pub status_code : ℕ
  pub drained : Bool

-- what http.Client.Do returns
pub data Answer : Type 0 where
  answer : ℕ → Answer
  no_answer : HttpError → Answer

pub record Transport (W : Type 0) : Type 0 where
  -- http.NewRequestWithContext
  pub new_request : Text → Text → Option HttpError
  pub execute : Text → Text → W → Answer × W
  -- the select of `sleepOrCtx`: the context's error, or nothing once the time is over
  pub sleep : ℕ → W → Option HttpError × W

-- internal/metrics/HTTPRequestMetrics.go, the counters
pub record HttpRequestMetrics : Type 0 where
  pub request_oks : ℕ
  pub request_bads : ℕ
  pub request_serv_errs : ℕ

-- what a request returns: the response, if there is one, and the error, if there is one
abbrev pub Returned : Type 0
Returned = Option Response × Option HttpError

-- the counters and the world
abbrev pub Counted : Type 0 → Type 0
Counted W = HttpRequestMetrics × W

unfoldable pub observe_status_code : ℕ → HttpRequestMetrics → HttpRequestMetrics
observe_status_code code m =
    if leb code 400
    then record m { request_oks = m.request_oks + 1 }
    else if leb code 500
    then record m { request_bads = m.request_bads + 1 }
    else record m { request_serv_errs = m.request_serv_errs + 1 }

-- a call of `Do` that fails is counted as a status 400
unfoldable pub observe_request_status : Answer → HttpRequestMetrics → HttpRequestMetrics
unfolding observe_status_code
observe_request_status (answer code) m = observe_status_code code m
observe_request_status (no_answer e) m = observe_status_code 400 m

pub member : ℕ → List ℕ → Bool
member n [] = false
member n (k ∷ ks) = let rest = member n ks in if k == n then true else rest

unfoldable pub should_retry_status : HttpRetryPolicyConfig → ℕ → Bool
unfolding member
should_retry_status c code = member code c.retry_on_status

unfoldable pub should_retry_error : HttpError → Bool
should_retry_error context_error = false
should_retry_error (net_error timeout) = timeout
should_retry_error (other_error x) = true

unfoldable pub should_retry : HttpRetryPolicyConfig → Returned → ℕ → Bool
unfolding should_retry_error should_retry_status
should_retry c (resp, error) attempt = if leb c.max_attempts attempt then false else elim error [
  | some e ↦ should_retry_error e
  | none ↦ elim resp [ none ↦ false | some r ↦ should_retry_status c r.status_code ]
]

-- The shift of an int64 drops the bits above: the number is read in two's complement, so that it can
-- be negative, which is `none`.
unfoldable pub shifted : ℕ → ℕ → Option ℕ
shifted base n = let d = (base * 2 ^ n) % 2 ^ 64 in if ltb d (2 ^ 63) then some d else none

-- the delay of `backoffDelay` before the jitter; `none` is a negative delay
unfoldable pub planned_delay : HttpRetryPolicyConfig → ℕ → Option ℕ
unfolding shifted
planned_delay c attempt = elim (shifted c.base_delay (attempt - 1)) [
  | none ↦ none
  | some d ↦ some (if ltb c.max_delay d then c.max_delay else d)
]

-- `backoffDelay`: `jitter` makes the delay that is returned, `d + j`, from the attempt and the planned
-- delay
unfoldable pub backoff_delay : HttpRetryPolicyConfig → (ℕ → ℕ → ℕ) → ℕ → Option ℕ
unfolding planned_delay
backoff_delay c jitter attempt = elim (planned_delay c attempt) [
  | none ↦ none
  | some d ↦ some (jitter attempt d)
]

module _ {W : Type 0} (t : Transport W) (c : HttpRetryPolicyConfig) where
  pub status_error : ℕ → HttpError
  status_error code = other_error (ascii "retryable HTTP status " ++ itoa code)

  -- `drainAndClose`; the body of a response is never nil
  pub drain_and_close : Response → Response
  drain_and_close r = record r { drained = true }

  pub answered : Answer → Returned
  unfolding status_error should_retry_status drain_and_close
  answered (no_answer e) = (none, some e)
  answered (answer code) =
      let r : Response = record { status_code = code; drained = false } in
      if should_retry_status c code
      then (some (drain_and_close r), some (status_error code))
      else (some r, none)

  pub requested : Text → Text → Option HttpError → Counted W → Returned × Counted W
  unfolding answered observe_request_status
  requested method endpoint (some e) (m, w) = ((none, some e), (m, w))
  requested method endpoint none (m, w) =
      let (a, v) = t.execute method endpoint w in (answered a, (observe_request_status a m, v))

  unfoldable pub execute_request_attempt : Text → Text → Counted W → Returned × Counted W
  unfolding requested
  execute_request_attempt method endpoint s =
      requested method endpoint (t.new_request method endpoint) s

  -- a delay that is not positive is no sleep
  unfoldable pub sleep_or_ctx : Option ℕ → Counted W → Option HttpError × Counted W
  sleep_or_ctx none s = (none, s)
  sleep_or_ctx (some zero) s = (none, s)
  sleep_or_ctx (some (suc d)) (m, w) = let (e, v) = t.sleep (suc d) w in (e, (m, v))

  -- the sleep after an attempt
  pub slept : (ℕ → ℕ → ℕ) → ℕ → Counted W → Option HttpError × Counted W
  unfolding sleep_or_ctx backoff_delay
  slept jitter attempt s = sleep_or_ctx (backoff_delay c jitter attempt) s

  -- The loop of `makeRequest` with the attempts that are left; `last` is what the last one returned.
  unfoldable pub attempts_from :
      (ℕ → ℕ → ℕ) → Text → Text → ℕ → ℕ → Returned → Counted W → Returned × Counted W
  unfolding slept
  attempts_from jitter method endpoint zero attempt last s = (last, s)
  attempts_from jitter method endpoint (suc left) attempt last s =
      let (r, u) = execute_request_attempt method endpoint s in
      let (e, v) = slept jitter attempt u in
      let rest = attempts_from jitter method endpoint left (attempt + 1) r v in
      elim r.0 [
        | some resp ↦ (r, u)
        | none ↦
            if not (should_retry c r attempt)
            then (r, u)
            else elim e [ some x ↦ ((none, some x), v) | none ↦ rest ]
      ]

  unfoldable pub make_request : (ℕ → ℕ → ℕ) → Text → Text → Counted W → Returned × Counted W
  unfolding attempts_from
  make_request jitter method endpoint s =
      attempts_from jitter method endpoint c.max_attempts 1 (none, none) s

  -- `Get`
  unfoldable pub get : (ℕ → ℕ → ℕ) → Text → Counted W → Returned × Counted W
  get jitter endpoint s = make_request jitter (ascii "GET") endpoint s
