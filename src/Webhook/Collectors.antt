-- ===== src/Webhook/Collectors.antt =====
-- The operator's collectors and their registration: internal/metrics/metrics.go.
use pprof_operator.Prelude.{Option, [], ◌∷◌, List}
use pprof_operator.Prometheus.{Collector, counter, gauge, Registry}

abbrev sidecars_attached : Collector
sidecars_attached = record {
  kind = counter;
  name = "pprof_operator_sidecars_attached_total";
  labels = [];
}

abbrev sidecars_removed : Collector
sidecars_removed = record {
  kind = counter;
  name = "pprof_operator_sidecars_removed_total";
  labels = [];
}

abbrev active_sidecars : Collector
active_sidecars = record { kind = gauge; name = "pprof_operator_active_sidecars"; labels = [] }

abbrev profiles_generated : Collector
profiles_generated = record {
  kind = counter;
  name = "pprof_operator_profiles_generated_total";
  labels = "profile_type" ∷ [];
}

abbrev profiles_uploaded : Collector
profiles_uploaded = record {
  kind = counter;
  name = "pprof_operator_profiles_uploaded_total";
  labels = [];
}

abbrev profile_upload_errors : Collector
profile_upload_errors = record {
  kind = counter;
  name = "pprof_operator_profile_upload_errors_total";
  labels = [];
}

abbrev threshold_exceeded : Collector
threshold_exceeded = record {
  kind = counter;
  name = "pprof_operator_threshold_exceeded_total";
  labels = "resource_type" ∷ [];
}

unfoldable pub operator_collectors : List Collector
operator_collectors =
    sidecars_attached ∷ sidecars_removed ∷ active_sidecars ∷ profiles_generated ∷ profiles_uploaded
    ∷ profile_upload_errors ∷ threshold_exceeded ∷ []

-- `init`, on the registry of controller-runtime.
unfoldable pub init : (r : Registry) → r.State → Option r.State
unfolding operator_collectors
init r s = r.must_register operator_collectors s
