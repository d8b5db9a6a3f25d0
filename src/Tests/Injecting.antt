-- ===== src/Tests/Injecting.antt =====
-- Requests that want a sidecar, in sequence and up to the sidecar's start.
use pprof_operator.Api.{Profiler}
use pprof_operator.Prelude.{◌≡◌, ◌≢◌, ◌↔◌, refl, some, [], ◌∷◌, ◌++◌, String, Option, ok}
use pprof_operator.Text.Decimal.{itoa}
use pprof_operator.Kube.{Pod}
use pprof_operator.Webhook.Builder.{container_of}
use pprof_operator.Webhook.Mutator.{
  Request, OperatorMetrics, patched, errored, decoder_not_initialized, respond, is_disabled,
  find_profiler, handle,
}
use pprof_operator.Webhook.Mutator.Injection.{
  Wants, Attaches, SomeWants, injected, handle-Attaches_iff,
}
use pprof_operator.Webhook.Registration.{
  Manager, Webhook, new_mutator, setup_pod_webhook, services_of, setup_pod_webhook-serves,
}
use pprof_operator.Contract.EndToEnd.{Serves, handle-Serves}
use pprof_operator.Sidecar.Metrics.{no_metrics}
use pprof_operator.Tests.Data.{profiler, pod, services, request, no_operator_metrics, secrets}
use pprof_operator.Tests.Delivery.{
  getenv-Delivers, surroundings, profiler-IsDeliverable, target_chosen,
}
use pprof_operator.Tests.Answers.{fixed_point, quantities}

pod-Wants : Wants services (request "on") pod profiler "app"
unfolding is_disabled find_profiler
pod-Wants = record {
  name = "default";
  listed = record { items = profiler ∷ [] };
  read = refl;
  enabled = refl;
  named = refl;
  answered = refl;
  found = refl;
  targeted = target_chosen;
}

printed :
    services.marshal
      (record pod { containers = pod.containers ++ (container_of profiler pod "app" ∷ []) })
    ≡ some "2"
unfolding itoa
printed = refl

handle-Attaches_iff_example :
    (Attaches services (request "on") no_operator_metrics ↔ SomeWants services (request "on"))
    × ((p : Pod) (c : Profiler) (target : String)
        → Wants services (request "on") p c target
        → (handle services (request "on") no_operator_metrics).1
          ≡ respond services (request "on") (injected services p c target))
handle-Attaches_iff_example = handle-Attaches_iff services (request "on") no_operator_metrics

handle-Serves_example :
    ((handle services (request "on") no_operator_metrics).1 ≡ patched "on" "2")
    × Serves profiler pod "app" (surroundings profiler) fixed_point quantities no_metrics []
handle-Serves_example =
    handle-Serves profiler pod "app" secrets (surroundings profiler) (getenv-Delivers profiler)
      profiler-IsDeliverable refl refl services (request "on") no_operator_metrics "2" fixed_point
      quantities no_metrics [] pod-Wants printed

abbrev manager : Manager (Unit {0})
manager = record { client = services.list; scheme = tt }

-- A scheme whose decoder reads nothing but one pod.
abbrev decoder_of : Unit {0} → String → Option Pod
decoder_of scheme raw = some pod

setup_pod_webhook-serves_example :
    (w : Webhook) × (setup_pod_webhook decoder_of manager ≡ ok w)
    × (w.path ≡ "/mutate-v1-pod")
    × ((req : Request) (m : OperatorMetrics)
        → (handle (services_of services.marshal w.handler) req m).1
          ≢ errored 500 decoder_not_initialized)
    × ((req : Request) (m : OperatorMetrics)
        → handle (services_of services.marshal (new_mutator manager)) req m
          ≡ (m, errored 500 decoder_not_initialized))
setup_pod_webhook-serves_example = setup_pod_webhook-serves decoder_of manager services.marshal
