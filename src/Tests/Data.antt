-- ===== src/Tests/Data.antt =====
-- A profiler, pods, services and answers of the outside world.
use pprof_operator.Prelude.{
  ◌≡◌, Bool-cases, inl, inr, false, refl, true, Option, none, some, List, [], ◌∷◌, String, ◌==◌,
  length, if◌then◌else◌, contains, arith, eq_iff,
}
use pprof_operator.Prelude.Int.{ℤ, pos}
use pprof_operator.Text.Decimal.{itoa}
use pprof_operator.Api.{Profiler}
use pprof_operator.Kube.{EnvVar, secret_key_ref, field_ref, ResourceRequirements, Container, Pod}
use pprof_operator.Webhook.Builder.{container_of}
use pprof_operator.Webhook.Builder.Names.{last_named}
use pprof_operator.Webhook.Mutator.{Services, Request, OperatorMetrics}
use pprof_operator.Contract.{Delivers, sidecar_variables}

-- A profiler with a period in seconds; its credentials are in a secret.
abbrev pub profiler_of : ℤ → Profiler
profiler_of period = record {
  name = "default";
  spec = record {
    cpu_threshold = some (pos 70);
    memory_threshold = none;
    monitoring_period = period;
    s3_bucket = "profiles";
    s3_region = "";
    s3_path_prefix = "prod/";
    aws_credentials_secret = "aws";
    aws_access_key_id = "";
    aws_secret_access_key = "";
    scrap_target = some (record {
      scrape_url = "http://localhost:6060/debug/pprof";
      auth = some (record {
        type = "Basic";
        basic_auth = some (record {
          username = "";
          password = "";
          secret_ref = some (record {
            name = "scrape";
            namespace = "apps";
            username_key = "";
            password_key = "pw";
          });
        });
      });
    });
  };
}

abbrev pub profiler : Profiler
profiler = profiler_of (pos 20)

abbrev no_resources : ResourceRequirements
no_resources = record { requests = []; limits = ("cpu", "500") ∷ ("memory", "2000") ∷ [] }

abbrev pub app : Container
app = record {
  name = "app";
  image = "app:1";
  image_pull_policy = "Always";
  env = [];
  resources = no_resources;
  ports = [];
}

abbrev pub pod_of : List (String × String) → List Container → Pod
pod_of annotations containers = record {
  name = "pod-1";
  namespace = "apps";
  annotations = annotations;
  containers = containers;
  node_name = "node-1";
}

abbrev on_annotations : List (String × String)
on_annotations = ("profiler.pprof.dev/enable", "true") ∷ ("profiler.pprof.dev/name", "default") ∷ []

abbrev pub off_annotations : List (String × String)
off_annotations = ("profiler.pprof.dev/enable", "false") ∷ []

abbrev pub pod : Pod
pod = pod_of on_annotations (app ∷ [])

abbrev pub sidecar : Container
sidecar = container_of profiler pod "app"

abbrev pub pod_with_sidecar : Pod
pod_with_sidecar = pod_of on_annotations (app ∷ sidecar ∷ [])

abbrev pub pod_off : Pod
pod_off = pod_of off_annotations (app ∷ sidecar ∷ [])

abbrev decode : String → Option Pod
decode raw =
    if raw == "on"
    then some pod
    else if raw == "again"
    then some pod_with_sidecar
    else if raw == "off"
    then some pod_off
    else if raw == "1"
    then some (pod_of off_annotations (app ∷ []))
    else none

-- A pod is printed as the number of its containers.
abbrev pub services : Services
services = record {
  decoder = some decode;
  list = λ ns. if ns == "apps" then some (record { items = profiler ∷ [] }) else none;
  marshal = λ p. some (itoa (pos (length p.containers)));
}

abbrev pub request : String → Request
request raw = record { namespace = "apps"; raw = raw }

abbrev pub no_operator_metrics : OperatorMetrics
no_operator_metrics = record {
  sidecars_attached = 0;
  sidecars_removed = 0;
  active_sidecars = pos 0;
}

-- What a container finds in its environment: Kubernetes gives it the API server's address.
abbrev secret_or_empty : Option String → String
secret_or_empty none = ""
secret_or_empty (some v) = v

abbrev service_host : String → String
service_host n = if n == "KUBERNETES_SERVICE_HOST" then "10.96.0.1" else ""

abbrev entry_text : String → (String → String → Option String) → Option EnvVar → String
entry_text n secrets none = service_host n
entry_text n secrets (some e) = elim e.value_from [
  | none ↦ e.value
  | some (secret_key_ref s k) ↦ secret_or_empty (secrets s k)
  | some (field_ref path) ↦ path
]

abbrev pub getenv_of : List EnvVar → (String → String → Option String) → String → String
getenv_of env secrets n = entry_text n secrets (last_named n env)

service_host_of_known : (n : String) → contains n sidecar_variables ≡ true → service_host n ≡ ""
service_host_of_known n h = elim (Bool-cases (n == "KUBERNETES_SERVICE_HOST")) [
  | inl same ↦
      let e : n ≡ "KUBERNETES_SERVICE_HOST" = ground (arith, eq_iff n "KUBERNETES_SERVICE_HOST") in
      let none_of : contains n sidecar_variables ≡ false = rw e refl in cc (h, none_of)
  | inr other ↦ rw other refl
]

pub getenv_of-Delivers :
    (env : List EnvVar) (secrets : String → String → Option String)
    → Delivers env secrets (getenv_of env secrets)
getenv_of-Delivers env secrets = record {
  given = λ n v h plain. rw h refl;
  from_secrets = λ n s key v h k. rw (h, k) refl;
  absent = λ n known h. rw h (service_host_of_known n known);
}

abbrev pub secrets : String → String → Option String
secrets s key =
    if s == "scrape"
    then (if key == "username" then some "alice" else if key == "pw" then some "s3cr$t" else none)
    else if s == "aws"
    then if key == "AWS_ACCESS_KEY_ID"
      then some "AKIA1"
      else if key == "AWS_SECRET_ACCESS_KEY"
      then some "k3y"
      else none
    else none
