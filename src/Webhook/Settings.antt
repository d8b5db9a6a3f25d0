-- ===== src/Webhook/Settings.antt =====
-- The environment variables that the CRD asks for, thresholds, period and storage:
-- internal/webhook/v1/utility.go.
use pprof_operator.Prelude.{
  Bool, true, false, not, ◌&&◌, some, none, List, [], ◌∷◌, String, ◌==◌, if◌then◌else◌,
}
use pprof_operator.Prelude.Int.{is_zero}
use pprof_operator.Text.Decimal.{itoa}
use pprof_operator.Api.{Profiler}
use pprof_operator.Kube.{EnvVar, literal, from_secret, Container}

-- `HasSidecar`.
unfoldable pub has_sidecar : List Container → String → Bool
has_sidecar [] name = false
has_sidecar (c ∷ cs) name = if c.name == name then true else has_sidecar cs name

unfoldable pub get_configured_cpu_threshold : Profiler → List EnvVar
get_configured_cpu_threshold p = elim p.spec.cpu_threshold [
  | some v ↦ literal "CPU_THRESHOLD" (itoa v) ∷ []
  | none ↦ []
]

unfoldable pub get_configured_memory_threshold : Profiler → List EnvVar
get_configured_memory_threshold p = elim p.spec.memory_threshold [
  | some v ↦ literal "MEMORY_THRESHOLD" (itoa v) ∷ []
  | none ↦ []
]

unfoldable pub get_configured_monitoring_period : Profiler → List EnvVar
get_configured_monitoring_period p =
    if not (is_zero p.spec.monitoring_period)
    then literal "MONITORING_PERIOD" (itoa p.spec.monitoring_period) ∷ []
    else []

unfoldable pub get_aws_configuration : Profiler → List EnvVar
get_aws_configuration p =
    literal "S3_BUCKET" p.spec.s3_bucket
    ∷ literal "S3_REGION" p.spec.s3_region
    ∷ literal "S3_PATH_PREFIX" p.spec.s3_path_prefix
    ∷ (if not (p.spec.aws_credentials_secret == "")
        then from_secret "AWS_ACCESS_KEY_ID" p.spec.aws_credentials_secret "AWS_ACCESS_KEY_ID"
          ∷ from_secret "AWS_SECRET_ACCESS_KEY" p.spec.aws_credentials_secret
              "AWS_SECRET_ACCESS_KEY"
          ∷ []
        else if not (p.spec.aws_access_key_id == "") && not (p.spec.aws_secret_access_key == "")
        then literal "AWS_ACCESS_KEY_ID" p.spec.aws_access_key_id
          ∷ literal "AWS_SECRET_ACCESS_KEY" p.spec.aws_secret_access_key
          ∷ []
        else [])
