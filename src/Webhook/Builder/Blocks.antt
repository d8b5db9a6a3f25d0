-- ===== src/Webhook/Builder/Blocks.antt =====
-- The sidecar's environment as blocks that keep to names of their own, so that the value of one
-- variable is decided by one block.
use pprof_operator.Prelude.{
  ◌≡◌, refl, sym, ◌∙◌, ap, List, [], ◌∷◌, String, ◌<>◌, ◌==◌, arith, All-append, Bool-cases, inl,
  inr, contains,
}
use pprof_operator.Text.Decimal.{itoa}
use pprof_operator.Api.{Profiler, auth_type_basic}
use pprof_operator.Kube.{literal, Pod}
use pprof_operator.Webhook.Settings.{
  get_configured_cpu_threshold, get_configured_memory_threshold, get_configured_monitoring_period,
  get_aws_configuration,
}
use pprof_operator.Webhook.ScrapeTarget.{
  get_scrape_target_configuration, get_scrape_target_url, get_scrape_target_auth_type,
  get_scrape_target_basic_auth, build_basic_auth_env_vars, build_secret_auth_env_vars,
}
use pprof_operator.Webhook.Builder.{base_env, storage_env, debug_env, metrics_port, sidecar_env}
use pprof_operator.Webhook.Builder.Names.{
  Names, Block, entries, AllKeep, pick, last_named, last_named-pick,
}

abbrev aws_names : List String
aws_names =
    "S3_BUCKET" ∷ "S3_REGION" ∷ "S3_PATH_PREFIX" ∷ "AWS_ACCESS_KEY_ID" ∷ "AWS_SECRET_ACCESS_KEY"
    ∷ []

abbrev scrape_names : List String
scrape_names = "SCRAPE_URL" ∷ "AUTH_TYPE" ∷ "AUTH_USERNAME" ∷ "AUTH_PASSWORD" ∷ []

module _ (p : Profiler) (pod : Pod) where
  aws-Names : Names aws_names (get_aws_configuration p)
  unfolding get_aws_configuration
  aws-Names = ground arith

  url-Names : Names scrape_names (get_scrape_target_url p pod)
  unfolding get_scrape_target_url
  url-Names = ground arith

  pub auth_type-name : (get_scrape_target_auth_type p pod).name ≡ "AUTH_TYPE"
  unfolding get_scrape_target_auth_type
  auth_type-name = ground arith

  basic_auth-Names : Names scrape_names (get_scrape_target_basic_auth p pod)
  unfolding get_scrape_target_basic_auth build_basic_auth_env_vars build_secret_auth_env_vars
  basic_auth-Names = ground arith

  scrape-Names : Names scrape_names (get_scrape_target_configuration p pod)
  unfolding get_scrape_target_configuration
  scrape-Names =
      let t = get_scrape_target_auth_type p pod in
      let named = ap (λ n. contains n scrape_names) auth_type-name in
      All-append _ (get_scrape_target_url p pod) _ url-Names (elim (Bool-cases (t.value == "")) [
        | inl e ↦ rw e tt
        | inr e ↦ elim (Bool-cases (t.value == auth_type_basic)) [
          | inl b ↦ rw (e, b) (named, basic_auth-Names)
          | inr b ↦ rw (e, b) (named, tt)
        ]
      ])

  cpu-Names : Names ("CPU_THRESHOLD" ∷ []) (get_configured_cpu_threshold p)
  unfolding get_configured_cpu_threshold
  cpu-Names = ground arith

  memory-Names : Names ("MEMORY_THRESHOLD" ∷ []) (get_configured_memory_threshold p)
  unfolding get_configured_memory_threshold
  memory-Names = ground arith

  period-Names : Names ("MONITORING_PERIOD" ∷ []) (get_configured_monitoring_period p)
  unfolding get_configured_monitoring_period
  period-Names = ground arith

  storage-Names : Names ("S3_ENDPOINT" ∷ "S3_FORCE_PATH_STYLE" ∷ []) (storage_env pod)
  unfolding storage_env
  storage-Names = ground arith

  debug-Names : Names ("LOG_LEVEL" ∷ "DEBUG" ∷ []) (debug_env pod)
  unfolding debug_env
  debug-Names = ground arith

  abbrev pub blocks : String → List Block
  blocks target =
      ("TARGET_CONTAINER" ∷ "POD_NAME" ∷ "POD_NAMESPACE" ∷ [], base_env target)
      ∷ ("CPU_THRESHOLD" ∷ [], get_configured_cpu_threshold p)
      ∷ ("MEMORY_THRESHOLD" ∷ [], get_configured_memory_threshold p)
      ∷ ("MONITORING_PERIOD" ∷ [], get_configured_monitoring_period p)
      ∷ (aws_names, get_aws_configuration p)
      ∷ (scrape_names, get_scrape_target_configuration p pod)
      ∷ ("S3_ENDPOINT" ∷ "S3_FORCE_PATH_STYLE" ∷ [], storage_env pod)
      ∷ ("LOG_LEVEL" ∷ "DEBUG" ∷ [], debug_env pod)
      ∷ ("METRICS_ADDR" ∷ [], literal "METRICS_ADDR" (":" <> itoa (metrics_port pod)) ∷ [])
      ∷ []

  pub blocks-AllKeep : (target : String) → AllKeep (blocks target)
  unfolding base_env
  blocks-AllKeep target = (
    (refl, (refl, (refl, tt))),
    (
      cpu-Names,
      (
        memory-Names,
        (
          period-Names,
          (aws-Names, (scrape-Names, (storage-Names, (debug-Names, ((refl, tt), tt))))),
        ),
      ),
    ),
  )

  pub entries-blocks : (target : String) → entries (blocks target) ≡ sidecar_env p pod target
  unfolding sidecar_env
  entries-blocks target = refl

  -- A variable of the sidecar is set by the block that may set it.
  pub last_named-sidecar_env :
      (n target : String)
      → last_named n (sidecar_env p pod target) ≡ last_named n (pick n (blocks target))
  last_named-sidecar_env n target =
      ap (last_named n) (sym (entries-blocks target))
      ∙ last_named-pick n (blocks target) (blocks-AllKeep target)
