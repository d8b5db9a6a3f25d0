-- ===== src/Webhook/Builder.antt =====
-- The sidecar container that is injected: `BuildProfilerSidecar` of
-- internal/webhook/v1/sidecar_manager.go.
pub mod Names
pub mod Blocks
pub mod Url
pub mod Distinct
pub mod Ports
pub mod Image
use pprof_operator.Prelude.{
  Bool, ◌||◌, Option, none, some, List, [], ◌∷◌, ◌++◌, String, ◌<>◌, ◌==◌, lookup, Result, ok, err,
  ◌>>=◌, if◌then◌else◌,
}
use pprof_operator.Prelude.Int.{ℤ, pos, leb_ℤ, ltb_ℤ}
use pprof_operator.Text.{trim_space, lowers_to}
use pprof_operator.Text.Decimal.{itoa, atoi}
use pprof_operator.Api.{Profiler}
use pprof_operator.Kube.{EnvVar, field_ref, literal, ResourceRequirements, Container, Pod}
use pprof_operator.Webhook.Annotations.{
  annotation_target_container, annotation_sidecar_image, annotation_s3_endpoint,
  annotation_s3_force_path_style, annotation_debug, annotation_sidecar_metrics_port,
}
use pprof_operator.Webhook.Settings.{
  get_configured_cpu_threshold, get_configured_memory_threshold, get_configured_monitoring_period,
  get_aws_configuration,
}
use pprof_operator.Webhook.ScrapeTarget.{set_annotation, get_scrape_target_configuration}

pub data BuildError : Type 0 where
  no_containers : (namespace name : String) → BuildError

-- The first container's name, where the pod has one.
abbrev first_container : Pod → List Container → Result BuildError String
first_container pod [] = err (no_containers pod.namespace pod.name)
first_container pod (c ∷ _) = ok c.name

unfoldable pub target_container : Pod → Result BuildError String
target_container pod = elim (set_annotation annotation_target_container pod) [
  | some name ↦ ok name
  | none ↦ first_container pod pod.containers
]

abbrev pub default_image : String
default_image = "ghcr.io/maulindesai/pprof-operator/pprof-sidecar:latest"

unfoldable pub sidecar_image : Pod → String
sidecar_image pod = elim (lookup annotation_sidecar_image pod.annotations) [
  | none ↦ default_image
  | some v ↦ if trim_space v == "" then default_image else trim_space v
]

-- `EnvVar{Name: name, ValueFrom: &EnvVarSource{FieldRef: …}}`.
abbrev pub from_field : String → String → EnvVar
from_field name path = record { name = name; value = ""; value_from = some (field_ref path) }

unfoldable pub base_env : String → List EnvVar
base_env target =
    literal "TARGET_CONTAINER" target
    ∷ from_field "POD_NAME" "metadata.name"
    ∷ from_field "POD_NAMESPACE" "metadata.namespace"
    ∷ []

abbrev pub sidecar_resources : ResourceRequirements
sidecar_resources = record {
  requests = ("cpu", "100m") ∷ ("memory", "128Mi") ∷ [];
  limits = ("cpu", "200m") ∷ ("memory", "256Mi") ∷ [];
}

unfoldable pub storage_env : Pod → List EnvVar
storage_env pod =
    (elim (set_annotation annotation_s3_endpoint pod) [
      | none ↦ []
      | some ep ↦ literal "S3_ENDPOINT" ep ∷ []
    ])
    ++ (elim (set_annotation annotation_s3_force_path_style pod) [
      | none ↦ []
      | some fps ↦ literal "S3_FORCE_PATH_STYLE" fps ∷ []
    ])

-- The test of the debug annotation.
unfoldable pub is_debug : String → Bool
unfolding trim_space lowers_to
is_debug dbg =
    let v = trim_space dbg in lowers_to v "true" || (lowers_to v "1" || lowers_to v "debug")

unfoldable pub debug_env : Pod → List EnvVar
debug_env pod = elim (lookup annotation_debug pod.annotations) [
  | none ↦ []
  | some dbg ↦
      if is_debug dbg then literal "LOG_LEVEL" "debug" ∷ literal "DEBUG" "true" ∷ [] else []
]

abbrev default_port : ℤ
default_port = pos 8080

-- `p <= 0 || p > 65535` falls back to the default.
abbrev pub checked_port : Option ℤ → ℤ
checked_port none = default_port
checked_port (some p) = if leb_ℤ p (pos 0) || ltb_ℤ (pos 65535) p then default_port else p

unfoldable pub metrics_port : Pod → ℤ
metrics_port pod = elim (lookup annotation_sidecar_metrics_port pod.annotations) [
  | none ↦ default_port
  | some v ↦ if trim_space v == "" then default_port else checked_port (atoi (trim_space v))
]

unfoldable pub sidecar_env : Profiler → Pod → String → List EnvVar
sidecar_env p pod target =
    base_env target
    ++ (get_configured_cpu_threshold p
        ++ (get_configured_memory_threshold p
            ++ (get_configured_monitoring_period p
                ++ (get_aws_configuration p
                    ++ (get_scrape_target_configuration p pod
                        ++ (storage_env pod
                            ++ (debug_env pod
                                ++ (literal "METRICS_ADDR" (":" <> itoa (metrics_port pod))
                                    ∷ []))))))))

-- `int32(metricsPort)` keeps the port: it is at most 65535.
abbrev pub container_of : Profiler → Pod → String → Container
container_of p pod target = record {
  name = "pprof-sidecar";
  image = sidecar_image pod;
  image_pull_policy = "IfNotPresent";
  env = sidecar_env p pod target;
  resources = sidecar_resources;
  ports = record { name = "metrics"; container_port = metrics_port pod; protocol = "TCP" } ∷ [];
}

unfoldable pub build_profiler_sidecar : Profiler → Pod → Result BuildError Container
unfolding target_container
build_profiler_sidecar p pod = do target ← target_container pod; ok (container_of p pod target)
