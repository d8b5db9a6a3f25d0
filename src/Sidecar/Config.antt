-- ===== src/Sidecar/Config.antt =====
-- The sidecar's configuration, read from its environment: `Config`, `loadConfig` and
-- `getScrapTarget` of sidecar/cmd/main.go. The Kubernetes client, which only the calls to the API
-- server use, is no field here: Sidecar/Kubelet.antt takes the answers to those calls.
pub mod Loading
pub mod Values
pub mod Spelling
use pprof_operator.Prelude.{
  Bool, ◌||◌, Option, none, some, String, ◌==◌, Result, ok, err, ◌>>=◌, if◌then◌else◌,
}
use pprof_operator.Prelude.Int.{ℤ, pos, ◌*ℤ◌, wrap64}
use pprof_operator.Text.Decimal.{atoi}
use pprof_operator.Sidecar.Types.{ScrapTarget, auth_type_basic}

abbrev pub default_cpu_threshold : ℤ
default_cpu_threshold = pos 80

abbrev pub default_memory_threshold : ℤ
default_memory_threshold = pos 80

abbrev pub default_profile_duration : ℤ
default_profile_duration = pos 30

-- A `time.Duration` is an `int64` of nanoseconds.
abbrev pub second : ℤ
second = pos 1_000_000_000

abbrev pub default_monitoring_period : ℤ
default_monitoring_period = pos 15_000_000_000

pub record Config : Type 0 where
  pub target_container : String
  pub cpu_threshold : ℤ
  pub memory_threshold : ℤ
  pub profile_duration : ℤ
  pub monitoring_period : ℤ
  pub s3_bucket : String
  pub s3_region : String
  pub s3_path_prefix : String
  pub s3_endpoint : String
  pub s3_force_path_style : Bool
  pub aws_access_key_id : String
  pub aws_secret_key : String
  pub scrap_target : ScrapTarget
  pub namespace : String
  pub pod_name : String
  pub pod_uid : String

pub data ConfigError : Type 0 where
  target_container_required s3_bucket_required no_kubernetes_config no_kubernetes_client :
      ConfigError

-- The surroundings of `loadConfig`: the environment, where an unset variable reads as the empty
-- string, the host's name, and whether the two Kubernetes calls succeed.
pub record Surroundings : Type 0 where
  pub getenv : String → String
  pub hostname : Option String
  pub in_cluster_config : Bool
  pub new_for_config : Bool

abbrev pub or_text : String → String → String
or_text v d = if v == "" then d else v

abbrev parsed_or : Option ℤ → ℤ → ℤ
parsed_or none d = d
parsed_or (some v) d = v

-- The three blocks that read a number: the default where the variable is empty or is no `int`.
unfoldable pub int_from_env : String → ℤ → ℤ
int_from_env v d = if v == "" then d else parsed_or (atoi v) d

abbrev parsed_period : Option ℤ → ℤ
parsed_period none = default_monitoring_period
parsed_period (some v) = wrap64 (v *ℤ second)

unfoldable pub period_from_env : String → ℤ
period_from_env v = if v == "" then default_monitoring_period else parsed_period (atoi v)

unfoldable pub force_path_style : String → Bool
force_path_style v = v == "1" || (v == "true" || (v == "TRUE" || v == "True"))

unfoldable pub get_scrap_target : (String → String) → ScrapTarget
get_scrap_target getenv = record {
  scrape_url = getenv "SCRAPE_URL";
  auth = some (
      if getenv "AUTH_TYPE" == auth_type_basic
      then record {
        type = auth_type_basic;
        basic_auth = some (record {
          username = getenv "AUTH_USERNAME";
          password = getenv "AUTH_PASSWORD";
          secret_ref = none;
        });
      }
      else record { type = ""; basic_auth = none });
}

abbrev pub host_or_empty : Option String → String
host_or_empty none = ""
host_or_empty (some h) = h

abbrev required : String → ConfigError → Result ConfigError String
required v e = if v == "" then err e else ok v

abbrev succeeds : Bool → ConfigError → Result ConfigError (Unit {0})
succeeds b e = if b then ok tt else err e

-- The configuration that is built when all that is required is there.
unfoldable pub config_of : Surroundings → Config
unfolding int_from_env period_from_env force_path_style get_scrap_target
config_of w = record {
  target_container = w.getenv "TARGET_CONTAINER";
  cpu_threshold = int_from_env (w.getenv "CPU_THRESHOLD") default_cpu_threshold;
  memory_threshold = int_from_env (w.getenv "MEMORY_THRESHOLD") default_memory_threshold;
  profile_duration = int_from_env (w.getenv "PROFILE_DURATION") default_profile_duration;
  monitoring_period = period_from_env (w.getenv "MONITORING_PERIOD");
  s3_bucket = w.getenv "S3_BUCKET";
  s3_region = or_text (w.getenv "S3_REGION") "us-west-2";
  s3_path_prefix = w.getenv "S3_PATH_PREFIX";
  s3_endpoint = w.getenv "S3_ENDPOINT";
  s3_force_path_style = force_path_style (w.getenv "S3_FORCE_PATH_STYLE");
  aws_access_key_id = w.getenv "AWS_ACCESS_KEY_ID";
  aws_secret_key = w.getenv "AWS_SECRET_ACCESS_KEY";
  scrap_target = get_scrap_target w.getenv;
  namespace = or_text (w.getenv "POD_NAMESPACE") "default";
  pod_name = or_text (w.getenv "POD_NAME") (host_or_empty w.hostname);
  pod_uid = "";
}

-- `loadConfig`: the checks in the source's order.
unfoldable pub load_config : Surroundings → Result ConfigError Config
load_config w = do
  _ ← required (w.getenv "TARGET_CONTAINER") target_container_required
  _ ← required (w.getenv "S3_BUCKET") s3_bucket_required
  _ ← succeeds w.in_cluster_config no_kubernetes_config
  _ ← succeeds w.new_for_config no_kubernetes_client
  ok (config_of w)
