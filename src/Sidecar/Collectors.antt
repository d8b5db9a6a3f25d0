-- ===== src/Sidecar/Collectors.antt =====
-- The sidecar's collectors and their registration: sidecar/pkg/metrics/metrics.go.
use pprof_operator.Prelude.{Option, [], ◌∷◌, List}
use pprof_operator.Prometheus.{Collector, counter, gauge, Registry}

abbrev profiles_generated : Collector
profiles_generated = record {
  kind = counter;
  name = "pprof_sidecar_profiles_generated_total";
  labels = "profile_type" ∷ [];
}

abbrev profiles_uploaded : Collector
profiles_uploaded = record {
  kind = counter;
  name = "pprof_sidecar_profiles_uploaded_total";
  labels = [];
}

abbrev profile_upload_errors : Collector
profile_upload_errors = record {
  kind = counter;
  name = "pprof_sidecar_profile_upload_errors_total";
  labels = [];
}

abbrev threshold_exceeded : Collector
threshold_exceeded = record {
  kind = counter;
  name = "pprof_sidecar_threshold_exceeded_total";
  labels = "resource_type" ∷ [];
}

abbrev resource_usage : Collector
resource_usage = record {
  kind = gauge;
  name = "pprof_sidecar_resource_usage_percent";
  labels = "resource_type" ∷ [];
}

unfoldable pub sidecar_collectors : List Collector
sidecar_collectors =
    profiles_generated ∷ profiles_uploaded ∷ profile_upload_errors ∷ threshold_exceeded
    ∷ resource_usage ∷ []

-- `init`, on a registry of its own.
unfoldable pub init : (r : Registry) → Option r.State
unfolding sidecar_collectors
init r = r.must_register sidecar_collectors r.new_registry
