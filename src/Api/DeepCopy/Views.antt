-- ===== src/Api/DeepCopy/Views.antt =====
-- What the stored structures stand for, and that the functions of api/v1/zz_generated.deepcopy.go
-- copy them deeply.
use pprof_operator.Prelude.{refl, Option, some, List, []}
use pprof_operator.Prelude.Int.{ℤ}
use pprof_operator.Api.{
  SecretRef, BasicAuth, Auth, ScrapTarget, ProfilerSpec, ProfileRecord, ProfilerStatus, Profiler,
}
use pprof_operator.Api.Memory.{
  StoredBasicAuth, StoredAuth, StoredScrapTarget, StoredSpec, StoredStatus, StoredProfiler,
  StoredList, and_then, ints, secrets, basics, auths, targets, record_arrays, profiler_arrays,
}
use pprof_operator.Api.DeepCopy.{
  basic_auth_deep_copy_into, auth_deep_copy_into, scrap_target_deep_copy_into,
  profiler_status_deep_copy_into, spec_pointers, with_pointers, profiler_spec_deep_copy_into,
  profiler_deep_copy_into, profiler_list_deep_copy_into,
}
use pprof_operator.Api.DeepCopy.Copier.{
  View, Points, view_pointer, points_pointer, view_both, points_both, view_all, points_all,
  IsCopier, value-IsCopier,
}
use pprof_operator.Api.DeepCopy.Pointers.{pointer-IsCopier}
use pprof_operator.Api.DeepCopy.Parts.{part-IsCopier, both-IsCopier}
use pprof_operator.Api.DeepCopy.Slices.{all-IsCopier}

abbrev itself : {S : Type 0} → View S S
itself h s = some s

abbrev nothing : {S : Type 0} → Points S
nothing h s = []

abbrev make_basic_auth : StoredBasicAuth → Option SecretRef → BasicAuth
make_basic_auth s r = record { username = s.username; password = s.password; secret_ref = r }

abbrev pub view_basic_auth : View StoredBasicAuth BasicAuth
view_basic_auth h s =
    and_then (view_pointer secrets itself h s.secret_ref) (λ r. some (make_basic_auth s r))

abbrev pub points_basic_auth : Points StoredBasicAuth
points_basic_auth h s = points_pointer secrets nothing h s.secret_ref

basic_auth-IsCopier : IsCopier view_basic_auth points_basic_auth basic_auth_deep_copy_into
basic_auth-IsCopier =
    part-IsCopier (pointer-IsCopier secrets value-IsCopier) (λ s. s.secret_ref)
      (λ p s. record s { secret_ref = p }) make_basic_auth (λ a s. refl) (λ a s b. refl)

abbrev make_auth : StoredAuth → Option BasicAuth → Auth
make_auth s b = record { type = s.type; basic_auth = b }

abbrev pub view_auth : View StoredAuth Auth
view_auth h s =
    and_then (view_pointer basics view_basic_auth h s.basic_auth) (λ b. some (make_auth s b))

abbrev pub points_auth : Points StoredAuth
points_auth h s = points_pointer basics points_basic_auth h s.basic_auth

auth-IsCopier : IsCopier view_auth points_auth auth_deep_copy_into
auth-IsCopier =
    part-IsCopier (pointer-IsCopier basics basic_auth-IsCopier) (λ s. s.basic_auth)
      (λ p s. record s { basic_auth = p }) make_auth (λ a s. refl) (λ a s b. refl)

abbrev make_scrap_target : StoredScrapTarget → Option Auth → ScrapTarget
make_scrap_target s a = record { scrape_url = s.scrape_url; auth = a }

abbrev pub view_scrap_target : View StoredScrapTarget ScrapTarget
view_scrap_target h s =
    and_then (view_pointer auths view_auth h s.auth) (λ a. some (make_scrap_target s a))

abbrev pub points_scrap_target : Points StoredScrapTarget
points_scrap_target h s = points_pointer auths points_auth h s.auth

scrap_target-IsCopier : IsCopier view_scrap_target points_scrap_target scrap_target_deep_copy_into
scrap_target-IsCopier =
    part-IsCopier (pointer-IsCopier auths auth-IsCopier) (λ s. s.auth)
      (λ p s. record s { auth = p }) make_scrap_target (λ a s. refl) (λ a s b. refl)

abbrev make_spec : StoredSpec → Option ℤ × (Option ℤ × Option ScrapTarget) → ProfilerSpec
make_spec s parts = record {
  cpu_threshold = parts.0;
  memory_threshold = parts.1.0;
  monitoring_period = s.monitoring_period;
  s3_bucket = s.s3_bucket;
  s3_region = s.s3_region;
  s3_path_prefix = s.s3_path_prefix;
  aws_credentials_secret = s.aws_credentials_secret;
  aws_access_key_id = s.aws_access_key_id;
  aws_secret_access_key = s.aws_secret_access_key;
  scrap_target = parts.1.1;
}

abbrev pub view_spec : View StoredSpec ProfilerSpec
view_spec h s =
    and_then
      (view_both (view_pointer ints itself)
        (view_both (view_pointer ints itself) (view_pointer targets view_scrap_target)) h
        (spec_pointers s))
      (λ parts. some (make_spec s parts))

abbrev pub points_spec : Points StoredSpec
points_spec h s =
    points_both (points_pointer ints nothing)
      (points_both (points_pointer ints nothing) (points_pointer targets points_scrap_target)) h
      (spec_pointers s)

spec-IsCopier : IsCopier view_spec points_spec profiler_spec_deep_copy_into
spec-IsCopier =
    part-IsCopier
      (both-IsCopier (pointer-IsCopier ints value-IsCopier) (
        both-IsCopier (pointer-IsCopier ints value-IsCopier)
          (pointer-IsCopier targets scrap_target-IsCopier)))
      spec_pointers with_pointers make_spec (λ a s. refl) (λ a s b. refl)

abbrev make_status : StoredStatus → Option (List ProfileRecord) → ProfilerStatus
make_status s r = record { profiles = r }

abbrev pub view_status : View StoredStatus ProfilerStatus
view_status h s =
    and_then (view_pointer record_arrays (view_all itself) h s.profiles)
      (λ r. some (make_status s r))

abbrev pub points_status : Points StoredStatus
points_status h s = points_pointer record_arrays (points_all nothing) h s.profiles

status-IsCopier : IsCopier view_status points_status profiler_status_deep_copy_into
status-IsCopier =
    part-IsCopier (pointer-IsCopier record_arrays (all-IsCopier value-IsCopier)) (λ s. s.profiles)
      (λ p s. record s { profiles = p }) make_status (λ a s. refl) (λ a s b. refl)

-- A profiler, with its status beside it.
abbrev make_profiler : StoredProfiler → ProfilerSpec × ProfilerStatus → Profiler × ProfilerStatus
make_profiler s parts = (record { name = s.name; spec = parts.0 }, parts.1)

abbrev pub view_profiler : View StoredProfiler (Profiler × ProfilerStatus)
view_profiler h s =
    and_then (view_both view_spec view_status h (s.spec, s.status))
      (λ parts. some (make_profiler s parts))

abbrev pub points_profiler : Points StoredProfiler
points_profiler h s = points_both points_spec points_status h (s.spec, s.status)

pub profiler-IsCopier : IsCopier view_profiler points_profiler profiler_deep_copy_into
profiler-IsCopier =
    part-IsCopier (both-IsCopier spec-IsCopier status-IsCopier) (λ s. (s.spec, s.status))
      (λ parts s. record s { spec = parts.0; status = parts.1 }) make_profiler (λ a s. refl)
      (λ a s b. refl)

-- A list of profilers; a list without a slice is another value than one with an empty slice.
abbrev pub view_list : View StoredList (Option (List (Profiler × ProfilerStatus)))
view_list h s =
    and_then (view_pointer profiler_arrays (view_all view_profiler) h s.items) (λ r. some r)

abbrev pub points_list : Points StoredList
points_list h s = points_pointer profiler_arrays (points_all points_profiler) h s.items

pub list-IsCopier : IsCopier view_list points_list profiler_list_deep_copy_into
list-IsCopier =
    part-IsCopier (pointer-IsCopier profiler_arrays (all-IsCopier profiler-IsCopier)) (λ s. s.items)
      (λ p s. record s { items = p }) (λ s r. r) (λ a s. refl) (λ a s b. refl)
