-- ===== src/Tests/Operator.antt =====
-- The webhook on concrete requests.
use pprof_operator.Prelude.{String, ◌≡◌, ◌≤◌, refl, true, false, some, List, [], ◌∷◌, ok}
use pprof_operator.Prelude.Int.{pos, ◌-ℤ◌}
use pprof_operator.Text.Decimal.{itoa}
use pprof_operator.Kube.{Container, Pod}
use pprof_operator.Webhook.Settings.{has_sidecar}
use pprof_operator.Webhook.ScrapeTarget.{get_scrape_target_basic_auth}
use pprof_operator.Webhook.ScrapeTarget.Namespace.{
  in_namespace, get_scrape_target_basic_auth-sources,
}
use pprof_operator.Webhook.ScrapeTarget.Auth.{env_vars, first_some, sources}
use pprof_operator.Webhook.Builder.{build_profiler_sidecar}
use pprof_operator.Webhook.Mutator.{
  without_sidecar, allowed, patched, errored, decode_failed, handle, handle_all, handle_pod,
  respond, sidecar_name, is_disabled, Request,
}
use pprof_operator.Webhook.Mutator.Containers.{count_named}
use pprof_operator.Webhook.Mutator.Outcome.{IsPatchOf, decoded, handle-IsPatchOf, handle-duplicates}
use pprof_operator.Webhook.Mutator.Counting.{IsBalanced, handle_all-IsBalanced}
use pprof_operator.Webhook.Mutator.Switching.{handle_pod-attached}
use pprof_operator.Webhook.Mutator.Settling.{ReadsBack, settled, handle-settles}
use pprof_operator.Tests.Data.{
  profiler, app, sidecar, pod, off_annotations, services, request, no_operator_metrics, pod_off,
  pod_with_sidecar,
}
use pprof_operator.Webhook.Mutator.{handle_enabled}
use pprof_operator.Webhook.Mutator.{find_profiler}
use pprof_operator.Webhook.Mutator.{attach}
use pprof_operator.Webhook.Mutator.{remove_sidecar_if_exists}
use pprof_operator.Webhook.Mutator.{without_sidecar}

handle-attaches : (handle services (request "on") no_operator_metrics).1 ≡ patched "on" "2"
unfolding handle handle_pod is_disabled handle_enabled find_profiler attach build_profiler_sidecar
    respond itoa
handle-attaches = refl

handle-attaches_again :
    (handle services (request "again") no_operator_metrics).1 ≡ patched "again" "3"
unfolding handle handle_pod is_disabled handle_enabled find_profiler attach build_profiler_sidecar
    respond itoa
handle-attaches_again = refl

handle-removes : (handle services (request "off") no_operator_metrics).1 ≡ patched "off" "1"
unfolding handle handle_pod is_disabled has_sidecar remove_sidecar_if_exists respond itoa
    without_sidecar
handle-removes = refl

handle-refuses : (handle services (request "{") no_operator_metrics).1 ≡ errored 400 decode_failed
unfolding handle
handle-refuses = refl

handle-IsPatchOf_example :
    (p : Pod) × (decoded services "on" ≡ some p) × IsPatchOf services p (request "on") "on" "2"
handle-IsPatchOf_example =
    handle-IsPatchOf services (request "on") no_operator_metrics handle-attaches

pod_with_sidecar-has : has_sidecar pod_with_sidecar.containers sidecar_name ≡ true
unfolding has_sidecar
pod_with_sidecar-has = refl

pod_with_sidecar-on : is_disabled pod_with_sidecar ≡ false
unfolding is_disabled
pod_with_sidecar-on = refl

handle-duplicates_example :
    (cs : List Container) × (services.marshal (record pod_with_sidecar { containers = cs })
      ≡ some "3")
    × (2 ≤ count_named sidecar_name cs)
handle-duplicates_example =
    handle-duplicates services (request "again") no_operator_metrics pod_with_sidecar refl
      pod_with_sidecar-on pod_with_sidecar-has handle-attaches_again

abbrev requests : List Request
requests = request "on" ∷ request "{" ∷ request "off" ∷ request "again" ∷ []

first-IsBalanced : IsBalanced no_operator_metrics
unfolding ◌-ℤ◌
first-IsBalanced = refl

handle_all-IsBalanced_example : IsBalanced (handle_all services requests no_operator_metrics).0
handle_all-IsBalanced_example =
    handle_all-IsBalanced services requests no_operator_metrics first-IsBalanced

build_profiler_sidecar-runs : build_profiler_sidecar profiler pod ≡ ok sidecar
unfolding build_profiler_sidecar
build_profiler_sidecar-runs = refl

pod-plain : has_sidecar pod.containers sidecar_name ≡ false
unfolding has_sidecar
pod-plain = refl

off-IsDisabled :
    is_disabled (record pod { annotations = off_annotations; containers = app ∷ sidecar ∷ [] })
    ≡ true
unfolding is_disabled
off-IsDisabled = refl

handle_pod-attached_example :
    handle_pod services
      (record pod { annotations = off_annotations; containers = app ∷ sidecar ∷ [] })
      (request "off")
      no_operator_metrics
    ≡ (
      record no_operator_metrics { sidecars_removed = 1; active_sidecars = pos 0 -ℤ pos 1 },
      respond services (request "off") (record pod { annotations = off_annotations }),
    )
handle_pod-attached_example =
    handle_pod-attached services pod profiler off_annotations (request "off") no_operator_metrics
      pod-plain build_profiler_sidecar-runs off-IsDisabled

get_scrape_target_basic_auth-sources_example :
    (get_scrape_target_basic_auth profiler pod ≡ env_vars (first_some (sources profiler pod)))
    × ((ns : String)
        → get_scrape_target_basic_auth (in_namespace ns profiler) pod
          ≡ get_scrape_target_basic_auth profiler pod)
get_scrape_target_basic_auth-sources_example = get_scrape_target_basic_auth-sources profiler pod

settled-ReadsBack : ReadsBack services (settled pod_off) "1"
unfolding without_sidecar
settled-ReadsBack = λ h. refl

pod_off-IsDisabled : is_disabled pod_off ≡ true
unfolding is_disabled
pod_off-IsDisabled = refl

handle-settles_example :
    handle services (request "1") no_operator_metrics
    ≡ (no_operator_metrics, allowed "Pod does not have profiler.pprof.dev/enable=true annotation")
handle-settles_example =
    handle-settles services (request "off") no_operator_metrics no_operator_metrics "apps" pod_off
      refl pod_off-IsDisabled handle-removes settled-ReadsBack
