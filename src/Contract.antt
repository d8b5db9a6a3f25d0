-- ===== src/Contract.antt =====
-- The operator and the sidecar together: the environment that `BuildProfilerSidecar` writes, as
-- `loadConfig` and the other readers of the sidecar find it.
pub mod Settings
pub mod Scraping
pub mod Period
pub mod Storage
pub mod Serving
pub mod Profiles
pub mod EndToEnd
pub mod Collectors
pub mod Watching
pub mod Sharing
use pprof_operator.Prelude.{◌≡◌, true, Option, none, some, List, [], ◌∷◌, String, contains}
use pprof_operator.Text.Decimal.Shape.{NoDollar}
use pprof_operator.Kube.{EnvVar, literal, from_secret}
use pprof_operator.Webhook.Builder.Names.{last_named}

-- The variables that sidecar/cmd/main.go and sidecar/pkg/logging/logging.go read.
abbrev pub sidecar_variables : List String
sidecar_variables =
    "TARGET_CONTAINER" ∷ "CPU_THRESHOLD" ∷ "MEMORY_THRESHOLD" ∷ "PROFILE_DURATION"
    ∷ "MONITORING_PERIOD" ∷ "S3_BUCKET" ∷ "S3_REGION" ∷ "S3_PATH_PREFIX" ∷ "S3_ENDPOINT"
    ∷ "S3_FORCE_PATH_STYLE" ∷ "AWS_ACCESS_KEY_ID" ∷ "AWS_SECRET_ACCESS_KEY" ∷ "SCRAPE_URL"
    ∷ "AUTH_TYPE" ∷ "AUTH_USERNAME" ∷ "AUTH_PASSWORD" ∷ "POD_NAMESPACE" ∷ "POD_NAME"
    ∷ "METRICS_ADDR" ∷ "LOG_LEVEL" ∷ "DEBUG" ∷ []

-- What Kubernetes promises of a container's environment: of several entries with one name the last
-- one counts, and a literal value reaches the process as it is, unless it has a `$`, which may
-- begin a reference to another variable. A reference to a secret gives what the secret holds under
-- the key. Of the variables that the sidecar reads, one with no entry reads as the empty string,
-- since the sidecar's image sets none of them and Kubernetes adds none. Of all other names, such as
-- those that Kubernetes sets in every container, nothing is said.
pub record Delivers (env : List EnvVar) (secrets : String → String → Option String)
    (getenv : String → String) : Type 0 where
  pub given : (n v : String) → last_named n env ≡ some (literal n v) → NoDollar v → getenv n ≡ v
  pub from_secrets :
      (n s key v : String)
      → last_named n env ≡ some (from_secret n s key)
      → secrets s key ≡ some v
      → getenv n ≡ v
  pub absent :
      (n : String) → contains n sidecar_variables ≡ true → last_named n env ≡ none → getenv n ≡ ""
