-- ===== src/HttpClient/Retries.antt =====
-- How often a request is sent.
use noted_runner.Prelude.{ℕ, zero, suc, ◌+◌, ◌≤◌, arith, none, Text}
use noted_runner.Configs.{HttpRetryPolicyConfig}
use noted_runner.HttpClient.{
  Transport, HttpRequestMetrics, Returned, Counted, observe_status_code, observe_request_status,
  execute_request_attempt, requested, attempts_from, slept, make_request,
}

-- the requests that the counters have seen
abbrev pub total : HttpRequestMetrics → ℕ
total m = m.request_oks + m.request_bads + m.request_serv_errs

module _ {W : Type 0} (t : Transport W) (c : HttpRetryPolicyConfig) where
  attempt-total :
      (method endpoint : Text) (s : Counted W)
      → total (execute_request_attempt t c method endpoint s).1.0 ≤ total s.0 + 1
  unfolding execute_request_attempt requested observe_request_status observe_status_code
  attempt-total method endpoint s = ground arith

  attempts-total :
      (jitter : ℕ → ℕ → ℕ) (method endpoint : Text) (n attempt : ℕ) (last : Returned)
      (s : Counted W)
      → total (attempts_from t c jitter method endpoint n attempt last s).1.0 ≤ total s.0 + n
  unfolding attempts_from slept
  attempts-total jitter method endpoint zero attempt last s = omega arith
  attempts-total jitter method endpoint (suc n) attempt last s =
      let (r, u) = execute_request_attempt t c method endpoint s in
      let (e, v) = slept t c jitter attempt u in
      let here = attempt-total method endpoint s in
      let rest = attempts-total jitter method endpoint n (attempt + 1) r v in ground arith

  -- However the transport answers and whatever the jitter is, a request raises the counters of the
  -- statuses, taken together, by at most `max_attempts`.
  pub make_request-total :
      (jitter : ℕ → ℕ → ℕ) (method endpoint : Text) (s : Counted W)
      → total (make_request t c jitter method endpoint s).1.0 ≤ total s.0 + c.max_attempts
  unfolding make_request
  make_request-total jitter method endpoint s =
      attempts-total jitter method endpoint c.max_attempts 1 (none, none) s
