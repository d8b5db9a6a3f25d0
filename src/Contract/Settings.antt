-- ===== src/Contract/Settings.antt =====
-- The thresholds, the period and the storage of the CRD, as the sidecar's configuration has them.
use pprof_operator.Prelude.{
  ◌≡◌, ◌≢◌, refl, ◌∙◌, ap, true, Option, none, some, List, String, contains, arith, eq_iff,
  Bool-cases, inl, inr, ok, if◌then◌else◌,
}
use pprof_operator.Prelude.Int.{ℤ, InRange, ◌*ℤ◌, wrap64_of_InRange}
use pprof_operator.Text.Decimal.{itoa}
use pprof_operator.Text.Decimal.RoundTrip.{atoi-itoa}
use pprof_operator.Text.Decimal.Shape.{NoDollar, itoa-NoDollar, itoa-ne-nil}
use pprof_operator.Api.{Profiler}
use pprof_operator.Kube.{EnvVar, Pod, literal}
use pprof_operator.Webhook.Settings.{
  get_configured_cpu_threshold, get_configured_memory_threshold, get_configured_monitoring_period,
  get_aws_configuration,
}
use pprof_operator.Prelude.Int.{is_zero}
use pprof_operator.Webhook.Builder.{base_env, sidecar_env}
use pprof_operator.Webhook.Builder.Names.{last_named}
use pprof_operator.Webhook.Builder.Blocks.{last_named-sidecar_env}
use pprof_operator.Contract.{Delivers, sidecar_variables}
use pprof_operator.Sidecar.Config.{
  Config, Surroundings, int_from_env, period_from_env, load_config, second, config_of, or_text,
  default_profile_duration, default_cpu_threshold, default_memory_threshold,
  default_monitoring_period,
}
use pprof_operator.Sidecar.Config.Loading.{load_config_of_ready}

abbrev pub value_or : Option ℤ → ℤ → ℤ
value_or none d = d
value_or (some v) d = v

-- A value that is set is in the range of an `int32`.
abbrev pub IsInt32 : Option ℤ → Type 0
IsInt32 none = Unit
IsInt32 (some v) = InRange 31 v

-- The sidecar reads back each number that the operator prints.
int_from_env-itoa : (v d : ℤ) → InRange 31 v → int_from_env (itoa v) d ≡ v
unfolding int_from_env
int_from_env-itoa v d h =
    ground (arith, atoi-itoa v (omega arith), eq_iff (itoa v) "", itoa-ne-nil v)

abbrev number_entry : String → Option ℤ → Option EnvVar
number_entry n none = none
number_entry n (some v) = some (literal n (itoa v))

-- A number of the CRD that is printed where it is set reaches the reader of the variable, and where
-- it is not set the reader's default stands.
number_delivered :
    {env : List EnvVar} {secrets : String → String → Option String} {getenv : String → String}
    (n : String) (o : Option ℤ) (d : ℤ)
    → Delivers env secrets getenv
    → contains n sidecar_variables ≡ true
    → last_named n env ≡ number_entry n o
    → IsInt32 o
    → int_from_env (getenv n) d ≡ value_or o d
unfolding int_from_env
number_delivered n none d k r e h = rw (k.absent n r e)
number_delivered n (some v) d k r e h =
    rw (k.given n (itoa v) e (itoa-NoDollar v)) (int_from_env-itoa v d h)

-- 0 stands for a period that is not set.
abbrev pub period_of : ℤ → ℤ
period_of v = if is_zero v then default_monitoring_period else v *ℤ second

-- A number of seconds in the range of `int32` does not overflow as a duration.
seconds-InRange : (v : ℤ) → InRange 31 v → InRange 63 (v *ℤ second)
unfolding ◌*ℤ◌
seconds-InRange v h = ground arith

period_from_env-itoa : (v : ℤ) → InRange 31 v → period_from_env (itoa v) ≡ v *ℤ second
unfolding period_from_env
period_from_env-itoa v h = ground (
  arith,
  atoi-itoa v (omega arith),
  eq_iff (itoa v) "",
  itoa-ne-nil v,
  wrap64_of_InRange (v *ℤ second) (seconds-InRange v h),
)

module _ (p : Profiler) (pod : Pod) (target : String) (secrets : String → String → Option String)
    (getenv : String → String) (k : Delivers (sidecar_env p pod target) secrets getenv) where
  cpu_entry :
      last_named "CPU_THRESHOLD" (sidecar_env p pod target)
      ≡ number_entry "CPU_THRESHOLD" p.spec.cpu_threshold
  unfolding get_configured_cpu_threshold
  cpu_entry = last_named-sidecar_env p pod "CPU_THRESHOLD" target ∙ ground arith

  memory_entry :
      last_named "MEMORY_THRESHOLD" (sidecar_env p pod target)
      ≡ number_entry "MEMORY_THRESHOLD" p.spec.memory_threshold
  unfolding get_configured_memory_threshold
  memory_entry = last_named-sidecar_env p pod "MEMORY_THRESHOLD" target ∙ ground arith

  period_delivered :
      InRange 31 p.spec.monitoring_period
      → period_from_env (getenv "MONITORING_PERIOD") ≡ period_of p.spec.monitoring_period
  unfolding get_configured_monitoring_period period_from_env
  period_delivered h = elim (Bool-cases (is_zero p.spec.monitoring_period)) [
    | inl unset ↦ rw unset (
        rw
          (k.absent "MONITORING_PERIOD" refl
            (last_named-sidecar_env p pod "MONITORING_PERIOD" target ∙ ground arith))
          refl)
    | inr set ↦
        let v = p.spec.monitoring_period in
        rw
          (k.given "MONITORING_PERIOD" (itoa v)
            (last_named-sidecar_env p pod "MONITORING_PERIOD" target ∙ ground arith)
            (itoa-NoDollar v))
          (period_from_env-itoa v h ∙ ground arith)
  ]

  -- A text of the CRD reaches the process as it is.
  bucket_delivered : NoDollar p.spec.s3_bucket → getenv "S3_BUCKET" ≡ p.spec.s3_bucket
  unfolding get_aws_configuration
  bucket_delivered h =
      k.given "S3_BUCKET" _ (last_named-sidecar_env p pod "S3_BUCKET" target ∙ ground arith) h

  region_delivered : NoDollar p.spec.s3_region → getenv "S3_REGION" ≡ p.spec.s3_region
  unfolding get_aws_configuration
  region_delivered h =
      k.given "S3_REGION" _ (last_named-sidecar_env p pod "S3_REGION" target ∙ ground arith) h

  prefix_delivered :
      NoDollar p.spec.s3_path_prefix → getenv "S3_PATH_PREFIX" ≡ p.spec.s3_path_prefix
  unfolding get_aws_configuration
  prefix_delivered h =
      k.given "S3_PATH_PREFIX" _
        (last_named-sidecar_env p pod "S3_PATH_PREFIX" target ∙ ground arith) h

  target_delivered : NoDollar target → getenv "TARGET_CONTAINER" ≡ target
  unfolding base_env
  target_delivered h =
      k.given "TARGET_CONTAINER" _ (last_named-sidecar_env p pod "TARGET_CONTAINER" target ∙ refl) h

  duration_absent : getenv "PROFILE_DURATION" ≡ ""
  duration_absent =
      k.absent "PROFILE_DURATION" refl (last_named-sidecar_env p pod "PROFILE_DURATION" target)

-- What the CRD must be for the sidecar to start: a bucket, a target, no `$` in the texts, and
-- numbers in the range of their type.
pub record IsDeliverable (p : Profiler) (target : String) : Type 0 where
  pub target_set : target ≢ ""
  pub target_plain : NoDollar target
  pub bucket_set : p.spec.s3_bucket ≢ ""
  pub bucket_plain : NoDollar p.spec.s3_bucket
  pub region_plain : NoDollar p.spec.s3_region
  pub prefix_plain : NoDollar p.spec.s3_path_prefix
  pub cpu_int32 : IsInt32 p.spec.cpu_threshold
  pub memory_int32 : IsInt32 p.spec.memory_threshold
  pub period_int32 : InRange 31 p.spec.monitoring_period

-- The settings of the CRD in the configuration. A profile lasts 30 seconds, since the operator does
-- not set its duration.
pub record IsDelivered (p : Profiler) (target : String) (c : Config) : Type 0 where
  pub container : c.target_container ≡ target
  pub cpu : c.cpu_threshold ≡ value_or p.spec.cpu_threshold default_cpu_threshold
  pub memory : c.memory_threshold ≡ value_or p.spec.memory_threshold default_memory_threshold
  pub period : c.monitoring_period ≡ period_of p.spec.monitoring_period
  pub duration : c.profile_duration ≡ default_profile_duration
  pub bucket : c.s3_bucket ≡ p.spec.s3_bucket
  pub region : c.s3_region ≡ or_text p.spec.s3_region "us-west-2"
  pub prefix : c.s3_path_prefix ≡ p.spec.s3_path_prefix

-- A sidecar that the operator builds from a deliverable CRD, in a cluster that delivers its
-- environment and lets it reach the API server, loads its configuration, and that configuration has
-- the CRD's thresholds, period and storage, with the defaults where the CRD leaves them out: the
-- sidecar's own region, us-west-2, where it has an empty one. The duration of a profile is always
-- the sidecar's default, since nothing in the CRD sets it.
pub load_config-IsDelivered :
    (p : Profiler) (pod : Pod) (target : String) (secrets : String → String → Option String)
    (w : Surroundings)
    → Delivers (sidecar_env p pod target) secrets w.getenv
    → IsDeliverable p target
    → w.in_cluster_config ≡ true
    → w.new_for_config ≡ true
    → (load_config w ≡ ok (config_of w)) × IsDelivered p target (config_of w)
unfolding config_of
load_config-IsDelivered p pod target secrets w k d i n = (
  load_config_of_ready w (record {
    target = rw (target_delivered p pod target secrets w.getenv k d.target_plain) d.target_set;
    bucket = rw (bucket_delivered p pod target secrets w.getenv k d.bucket_plain) d.bucket_set;
    kubernetes_config = i;
    kubernetes_client = n;
  }),
  record {
    container = target_delivered p pod target secrets w.getenv k d.target_plain;
    cpu =
        number_delivered "CPU_THRESHOLD" p.spec.cpu_threshold default_cpu_threshold k refl
          (cpu_entry p pod target secrets w.getenv k) d.cpu_int32;
    memory =
        number_delivered "MEMORY_THRESHOLD" p.spec.memory_threshold default_memory_threshold k refl
          (memory_entry p pod target secrets w.getenv k) d.memory_int32;
    period = period_delivered p pod target secrets w.getenv k d.period_int32;
    duration = rw (duration_absent p pod target secrets w.getenv k) refl;
    bucket = bucket_delivered p pod target secrets w.getenv k d.bucket_plain;
    region =
        ap (λ r. or_text r "us-west-2")
          (region_delivered p pod target secrets w.getenv k d.region_plain);
    prefix = prefix_delivered p pod target secrets w.getenv k d.prefix_plain;
  },
)
