-- ===== src/Sidecar/Metrics.antt =====
-- The sidecar's metrics: sidecar/pkg/metrics/metrics.go. A vector is a function of its label, a
-- counter is a number (the floating-point counters of Prometheus are exact below 2 ^ 53). The
-- gauges hold values of the type `F` of floating-point numbers.
pub mod Server
use pprof_operator.Prelude.{ℕ, ◌+◌, Option, none, some, String, ◌==◌, if◌then◌else◌}

pub record Metrics (F : Type 0) : Type 0 where
  pub profiles_generated : String → ℕ
  pub profiles_uploaded : ℕ
  pub profile_upload_errors : ℕ
  pub threshold_exceeded : String → ℕ
  pub resource_usage : String → Option F

-- `With(label).Inc()`.
abbrev pub inc : String → (String → ℕ) → String → ℕ
inc label f l = if l == label then f l + 1 else f l

-- `With(label).Set(v)`.
abbrev pub set_gauge : {F : Type 0} → String → F → (String → Option F) → String → Option F
set_gauge label v f l = if l == label then some v else f l

abbrev pub no_metrics : {F : Type 0} → Metrics F
no_metrics = record {
  profiles_generated = λ _. 0;
  profiles_uploaded = 0;
  profile_upload_errors = 0;
  threshold_exceeded = λ _. 0;
  resource_usage = λ _. none;
}
