-- ===== src/Tests/Delivery.antt =====
-- A profiler, the environment that the operator writes for it, and the sidecar that reads it.
use pprof_operator.Prelude.{
  ◌≡◌, ◌≢◌, ◌↔◌, refl, true, false, none, some, [], ◌∷◌, String, ◌==◌, arith, eq_iff, ok,
}
use pprof_operator.Prelude.Int.{pos, negsuc, ◌≤ℤ◌}
use pprof_operator.Kube.{Pod}
use pprof_operator.Api.{Profiler, auth_type_basic}
use pprof_operator.Webhook.Builder.{sidecar_env, target_container}
use pprof_operator.Webhook.ScrapeTarget.{set_annotation, get_scrape_target_auth_type}
use pprof_operator.Webhook.ScrapeTarget.Auth.{by_secret}
use pprof_operator.Contract.{Delivers}
use pprof_operator.Contract.Settings.{IsDeliverable, IsDelivered, load_config-IsDelivered}
use pprof_operator.Contract.Scraping.{request_auth-delivered}
use pprof_operator.Contract.Storage.{
  Gives, in_secret, endpoint_of, load_aws_config-delivered, s3_client-delivered,
}
use pprof_operator.Contract.Period.{IsPeriod, monitor-panics_iff}
use pprof_operator.Sidecar.Config.{Surroundings, config_of, get_scrap_target, load_config}
use pprof_operator.Sidecar.Config.Loading.{IsReady}
use pprof_operator.Sidecar.Config.Spelling.{Spells, load_config-Spells_iff}
use pprof_operator.Sidecar.Storage.{load_aws_config, s3_client}
use pprof_operator.Webhook.Annotations.{annotation_s3_endpoint, annotation_s3_force_path_style}
use pprof_operator.Sidecar.Collect.{s3_config, request_auth}
use pprof_operator.Sidecar.Metrics.{no_metrics}
use pprof_operator.Sidecar.Monitor.{loop, monitor_resource_usage, panics, runs}
use pprof_operator.Tests.Data.{
  profiler, profiler_of, pod, pod_of, app, getenv_of, getenv_of-Delivers, secrets,
}
use pprof_operator.Tests.Answers.{fixed_point, quantities}

abbrev pub getenv : Profiler → String → String
getenv p = getenv_of (sidecar_env p pod "app") secrets

pub getenv-Delivers : (p : Profiler) → Delivers (sidecar_env p pod "app") secrets (getenv p)
getenv-Delivers p = getenv_of-Delivers (sidecar_env p pod "app") secrets

abbrev pub surroundings : Profiler → Surroundings
surroundings p = record {
  getenv = getenv p;
  hostname = none;
  in_cluster_config = true;
  new_for_config = true;
}

pub not_empty : (v : String) → (v == "") ≡ false → v ≢ ""
not_empty v h = λ e. absurd (ground (arith, eq_iff v ""))

pub profiler-IsDeliverable : IsDeliverable profiler "app"
profiler-IsDeliverable = record {
  target_set = not_empty "app" refl;
  target_plain = omega arith;
  bucket_set = not_empty "profiles" refl;
  bucket_plain = omega arith;
  region_plain = omega arith;
  prefix_plain = omega arith;
  cpu_int32 = (omega arith, omega arith);
  memory_int32 = tt;
  period_int32 = (omega arith, omega arith);
}

load_config-IsDelivered_example :
    (load_config (surroundings profiler) ≡ ok (config_of (surroundings profiler)))
    × IsDelivered profiler "app" (config_of (surroundings profiler))
load_config-IsDelivered_example =
    load_config-IsDelivered profiler pod "app" secrets (surroundings profiler)
      (getenv-Delivers profiler) profiler-IsDeliverable refl refl

basic : (get_scrape_target_auth_type profiler pod).value ≡ auth_type_basic
unfolding get_scrape_target_auth_type
basic = refl

request_auth-delivered_example :
    request_auth (get_scrap_target (getenv profiler)) ≡ some ("alice", "s3cr$t")
request_auth-delivered_example =
    request_auth-delivered profiler pod "app" secrets (getenv profiler) (getenv-Delivers profiler)
      (by_secret "scrape" "username" "pw") "alice" "s3cr$t" basic refl (refl, refl)
      (not_empty "alice" refl) (not_empty "s3cr$t" refl)

load_config-Spells_iff_example :
    (load_config (surroundings profiler) ≡ ok (config_of (surroundings profiler))) ↔ (
      IsReady (surroundings profiler)
      × Spells (surroundings profiler) (config_of (surroundings profiler)))
load_config-Spells_iff_example =
    load_config-Spells_iff (surroundings profiler) (config_of (surroundings profiler))

-- A period of -5 seconds.
abbrev backwards : Profiler
backwards = profiler_of (negsuc 4)

backwards-IsDeliverable : IsDeliverable backwards "app"
backwards-IsDeliverable = record {
  target_set = not_empty "app" refl;
  target_plain = omega arith;
  bucket_set = not_empty "profiles" refl;
  bucket_plain = omega arith;
  region_plain = omega arith;
  prefix_plain = omega arith;
  cpu_int32 = (omega arith, omega arith);
  memory_int32 = tt;
  period_int32 = (omega arith, omega arith);
}

monitor-panics_iff_example :
    ((monitor_resource_usage fixed_point quantities
          (config_of (surroundings backwards))
          no_metrics
          []
        ≡ panics)
      ↔ (backwards.spec.monitoring_period ≤ℤ negsuc 0))
    × (((monitor_resource_usage fixed_point quantities
              (config_of (surroundings backwards))
              no_metrics
              []
            ≡ runs (
                loop fixed_point quantities
                  (config_of (surroundings backwards))
                  []
                  (record { last_cpu_time = none; metrics = no_metrics })))
          × IsPeriod (config_of (surroundings backwards)).monitoring_period)
        ↔ (pos 0 ≤ℤ backwards.spec.monitoring_period))
monitor-panics_iff_example =
    monitor-panics_iff backwards pod "app" secrets (surroundings backwards) fixed_point quantities
      no_metrics [] (getenv-Delivers backwards) backwards-IsDeliverable refl refl

pub target_chosen : target_container pod ≡ ok "app"
unfolding target_container
target_chosen = refl

profiler-Gives : Gives profiler secrets "AKIA1" "k3y"
profiler-Gives = in_secret (not_empty "aws" refl) refl refl

load_aws_config-delivered_example :
    (load_aws_config (s3_config (config_of (surroundings profiler)))).credentials
    ≡ some ("AKIA1", "k3y")
load_aws_config-delivered_example =
    load_aws_config-delivered profiler pod "app" secrets (surroundings profiler)
      (getenv-Delivers profiler) "AKIA1" "k3y" profiler-Gives (not_empty "AKIA1" refl)
      (not_empty "k3y" refl)

abbrev pod_with_endpoint : Pod
pod_with_endpoint =
    pod_of
      (("profiler.pprof.dev/s3_endpoint", "https://s3.local")
        ∷ ("profiler.pprof.dev/s3_force_path_style", "TRUE")
        ∷ [])
      (app ∷ [])

abbrev surroundings_with_endpoint : Surroundings
surroundings_with_endpoint = record {
  getenv = getenv_of (sidecar_env profiler pod_with_endpoint "app") secrets;
  hostname = none;
  in_cluster_config = true;
  new_for_config = true;
}

s3_client-delivered_example :
    (s3_client (s3_config (config_of surroundings_with_endpoint))).endpoint
    ≡ endpoint_of
        (set_annotation annotation_s3_endpoint pod_with_endpoint)
        (set_annotation annotation_s3_force_path_style pod_with_endpoint)
s3_client-delivered_example =
    s3_client-delivered profiler pod_with_endpoint "app" secrets surroundings_with_endpoint
      (getenv_of-Delivers (sidecar_env profiler pod_with_endpoint "app") secrets) (omega arith)
      (omega arith)
