-- ===== src/Sidecar/Config/Spelling.antt =====
-- The configuration that an environment spells, described field by field without the code of
-- `loadConfig`.
use pprof_operator.Prelude.{
  ◌≡◌, ◌↔◌, refl, ◌∙◌, sym, Option, none, some, String, ok, arith, eq_iff, contains, or_empty, [],
  ◌∷◌,
}
use pprof_operator.Prelude.Int.{pos}
use pprof_operator.Sidecar.Config.{
  Config, Surroundings, config_of, load_config, force_path_style, host_or_empty,
}
use pprof_operator.Sidecar.Config.Loading.{IsReady, load_config_iff}
use pprof_operator.Sidecar.Config.Values.{
  IsNumber, IsText, IsSeconds, IsTarget, IsNumber-int_from_env, IsSeconds-period_from_env,
  IsText-or_text, IsNumber-unique, IsSeconds-unique, IsText-unique, IsTarget-get_scrap_target,
  IsTarget-unique,
}

-- What each field of the configuration is.
pub record Spells (w : Surroundings) (c : Config) : Type 0 where
  pub target_container : c.target_container ≡ w.getenv "TARGET_CONTAINER"
  pub cpu : IsNumber (w.getenv "CPU_THRESHOLD") (pos 80) c.cpu_threshold
  pub memory : IsNumber (w.getenv "MEMORY_THRESHOLD") (pos 80) c.memory_threshold
  pub duration : IsNumber (w.getenv "PROFILE_DURATION") (pos 30) c.profile_duration
  pub period : IsSeconds (w.getenv "MONITORING_PERIOD") (pos 15_000_000_000) c.monitoring_period
  pub bucket : c.s3_bucket ≡ w.getenv "S3_BUCKET"
  pub region : IsText (w.getenv "S3_REGION") "us-west-2" c.s3_region
  pub prefix : c.s3_path_prefix ≡ w.getenv "S3_PATH_PREFIX"
  pub endpoint : c.s3_endpoint ≡ w.getenv "S3_ENDPOINT"
  pub path_style :
      c.s3_force_path_style
      ≡ contains (w.getenv "S3_FORCE_PATH_STYLE") ("1" ∷ "true" ∷ "TRUE" ∷ "True" ∷ [])
  pub key_id : c.aws_access_key_id ≡ w.getenv "AWS_ACCESS_KEY_ID"
  pub secret_key : c.aws_secret_key ≡ w.getenv "AWS_SECRET_ACCESS_KEY"
  pub target : IsTarget w.getenv c.scrap_target
  pub namespace : IsText (w.getenv "POD_NAMESPACE") "default" c.namespace
  pub pod_name : IsText (w.getenv "POD_NAME") (or_empty w.hostname) c.pod_name
  pub pod_uid : c.pod_uid ≡ ""

path_style-eq : (v : String) → force_path_style v ≡ contains v ("1" ∷ "true" ∷ "TRUE" ∷ "True" ∷ [])
unfolding force_path_style
path_style-eq v = ground (
  arith,
  eq_iff v "1",
  eq_iff v "true",
  eq_iff v "TRUE",
  eq_iff v "True",
  eq_iff "1" v,
  eq_iff "true" v,
  eq_iff "TRUE" v,
  eq_iff "True" v,
)

host_lem : (o : Option String) → host_or_empty o ≡ or_empty o
host_lem none = refl
host_lem (some h) = refl

module _ (w : Surroundings) where
  config_of-Spells : Spells w (config_of w)
  unfolding config_of
  config_of-Spells = record {
    target_container = refl;
    cpu = IsNumber-int_from_env _ _;
    memory = IsNumber-int_from_env _ _;
    duration = IsNumber-int_from_env _ _;
    period = IsSeconds-period_from_env _;
    bucket = refl;
    region = IsText-or_text _ _;
    prefix = refl;
    endpoint = refl;
    path_style = path_style-eq (w.getenv "S3_FORCE_PATH_STYLE");
    key_id = refl;
    secret_key = refl;
    target = IsTarget-get_scrap_target w.getenv;
    namespace = IsText-or_text _ _;
    pod_name = rw (host_lem w.hostname) (IsText-or_text _ _);
    pod_uid = refl;
  }

  Spells-unique : (c d : Config) → Spells w c → Spells w d → c ≡ d
  Spells-unique c d h k = λ i. record {
    target_container = (h.target_container ∙ sym k.target_container) i;
    cpu_threshold = IsNumber-unique _ _ _ _ h.cpu k.cpu i;
    memory_threshold = IsNumber-unique _ _ _ _ h.memory k.memory i;
    profile_duration = IsNumber-unique _ _ _ _ h.duration k.duration i;
    monitoring_period = IsSeconds-unique _ _ _ _ h.period k.period i;
    s3_bucket = (h.bucket ∙ sym k.bucket) i;
    s3_region = IsText-unique _ _ _ _ h.region k.region i;
    s3_path_prefix = (h.prefix ∙ sym k.prefix) i;
    s3_endpoint = (h.endpoint ∙ sym k.endpoint) i;
    s3_force_path_style = (h.path_style ∙ sym k.path_style) i;
    aws_access_key_id = (h.key_id ∙ sym k.key_id) i;
    aws_secret_key = (h.secret_key ∙ sym k.secret_key) i;
    scrap_target = IsTarget-unique w.getenv _ _ h.target k.target i;
    namespace = IsText-unique _ _ _ _ h.namespace k.namespace i;
    pod_name = IsText-unique _ _ _ _ h.pod_name k.pod_name i;
    pod_uid = (h.pod_uid ∙ sym k.pod_uid) i;
  }

  -- The configuration loads exactly if a target container and a bucket are named and Kubernetes can
  -- be reached. Its texts are then those of their variables, an empty region or name replaced by
  -- its default; each number is the one that its variable spells, the period in seconds, and the
  -- default where the variable spells none, so that no malformed number stops the start; and
  -- credentials are read exactly if the type is "Basic".
  pub load_config-Spells_iff : (c : Config) → (load_config w ≡ ok c) ↔ (IsReady w × Spells w c)
  load_config-Spells_iff c =
      let (loads, is_loaded) = load_config_iff w c in
      (
        λ h. let (ready, same) = loads h in (ready, rw same config_of-Spells),
        λ (ready, h). is_loaded (ready, Spells-unique c (config_of w) h config_of-Spells),
      )
