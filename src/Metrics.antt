-- ===== src/Metrics.antt =====
-- internal/metrics/HTTPRequestMetrics.go and internal/application/metrics.go: the registration of the
-- metrics. Prometheus is no part of the repository: a registry is the list of the names that are taken,
-- and `collectors`, the names of the collectors of the Go runtime and of the process, a parameter.
use noted_runner.Prelude.{
  ◌≡◌, refl, arith, false, List, [], ◌∷◌, ◌++◌, Text, ascii, text_eq, contains, if◌then◌else◌,
  Outcome, ok, panic, ◌>>=◌,
}

-- the metrics, by their names
pub record MetricNames : Type 0 where
  pub request_durations : Text
  pub request_oks : Text
  pub request_bads : Text
  pub request_serv_errs : Text

-- MustRegister: a name that is taken is a panic
unfoldable pub must_register : List Text → List Text → Outcome (List Text)
must_register [] reg = ok reg
must_register (n ∷ ns) reg =
    let rest = must_register ns (reg ++ n ∷ []) in if contains n reg then panic else rest

unfoldable pub metric_names : Text → MetricNames
metric_names name = record {
  request_durations = name ++ ascii "_duration_ms";
  request_oks = name ++ ascii "_request_200s";
  request_bads = name ++ ascii "_request_400s";
  request_serv_errs = name ++ ascii "_request_500s";
}

abbrev pub listed : MetricNames → List Text
listed m = m.request_durations ∷ m.request_oks ∷ m.request_bads ∷ m.request_serv_errs ∷ []

unfoldable pub new_http_request_metrics : Text → List Text → Outcome MetricNames
unfolding must_register metric_names
new_http_request_metrics name reg = do
  taken ← must_register (listed (metric_names name)) reg
  ok (metric_names name)

unfoldable pub setup_metrics : List Text → Outcome MetricNames
unfolding must_register new_http_request_metrics
setup_metrics collectors = do
  reg ← must_register collectors []
  new_http_request_metrics (ascii "runner_get") reg

contains-snoc :
    (a : Text) (xs : List Text) (y : Text)
    → contains a xs ≡ false
    → text_eq y a ≡ false
    → contains a (xs ++ y ∷ []) ≡ false
unfolding contains
contains-snoc a [] y e f = ground (arith, f)
contains-snoc a (x ∷ xs) y e f = ground (arith, e, contains-snoc a xs y)

-- Where the names of the collectors can be registered and none of them is one of the four names of the
-- service's metrics, `SetupMetrics` does not panic: the four names are distinct.
pub setup_metrics-ok :
    (collectors reg : List Text)
    → must_register collectors [] ≡ ok reg
    → contains (ascii "runner_get_duration_ms") reg ≡ false
    → contains (ascii "runner_get_request_200s") reg ≡ false
    → contains (ascii "runner_get_request_400s") reg ≡ false
    → contains (ascii "runner_get_request_500s") reg ≡ false
    → setup_metrics collectors ≡ ok (metric_names (ascii "runner_get"))
unfolding setup_metrics new_http_request_metrics must_register metric_names contains text_eq
setup_metrics-ok collectors reg fits a b c d =
    let y = ascii "runner_get_duration_ms" in
    let z = ascii "runner_get_request_200s" in
    let x = ascii "runner_get_request_400s" in
    let last = ascii "runner_get_request_500s" in
    let b' = contains-snoc _ reg y b refl in
    let c' = contains-snoc x (reg ++ y ∷ []) z (contains-snoc x reg y c refl) refl in
    let d' =
      contains-snoc last (reg ++ y ∷ [] ++ z ∷ []) x
        (contains-snoc last (reg ++ y ∷ []) z (contains-snoc last reg y d refl) refl) refl in
    rw (setup_metrics, fits, a, b', c', d') refl
