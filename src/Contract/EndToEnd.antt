-- ===== src/Contract/EndToEnd.antt =====
-- From an annotated pod to the sidecar that monitors it.
use pprof_operator.Prelude.{
  ℕ, ◌≤◌, ◌≡◌, refl, ◌∙◌, true, some, List, [], ◌∷◌, ◌++◌, Option, String, ◌<>◌, if◌then◌else◌,
}
use pprof_operator.Prelude.Int.{pos}
use pprof_operator.Text.Decimal.{itoa}
use pprof_operator.Api.{Profiler}
use pprof_operator.Kube.{Pod}
use pprof_operator.Webhook.Builder.{sidecar_env, container_of}
use pprof_operator.Webhook.Mutator.{Services, Request, OperatorMetrics, patched, respond, handle}
use pprof_operator.Webhook.Mutator.Injection.{Wants, handle-Attaches_iff}
use pprof_operator.Contract.{Delivers}
use pprof_operator.Contract.Settings.{IsDeliverable, IsDelivered, load_config-IsDelivered}
use pprof_operator.Contract.Scraping.{wants_debug}
use pprof_operator.Contract.Serving.{main-starts}
use pprof_operator.Sidecar.Config.{Surroundings, config_of}
use pprof_operator.Sidecar.Logging.{production, development, debug_level, info_level}
use pprof_operator.Sidecar.Metrics.{Metrics}
use pprof_operator.Sidecar.Kubelet.{Floats, Quantities}
use pprof_operator.Sidecar.Monitor.{Event, monitor_resource_usage}
use pprof_operator.Sidecar.Start.{starts, main}

-- The sidecar's process in a container: what it is started with, and that it listens where the
-- container says.
pub record Serves (p : Profiler) (pod : Pod) (target : String) (w : Surroundings) (fl : Floats)
    (q : Quantities) (m : Metrics fl.F) (es : List Event) : Type 0 where
  pub port : ℕ
  pub low : 1 ≤ port
  pub high : port ≤ 65535
  pub declared :
      (container_of p pod target).ports
      ≡ record { name = "metrics"; container_port = pos port; protocol = "TCP" } ∷ []
  pub started :
      main fl q w true m es
      ≡ starts
          (if wants_debug pod then development debug_level else production info_level)
          (":" <> itoa (pos port))
          (monitor_resource_usage fl q (config_of w) m es)
  pub settings : IsDelivered p target (config_of w)

module _ (p : Profiler) (pod : Pod) (target : String) (secrets : String → String → Option String)
    (w : Surroundings) (k : Delivers (sidecar_env p pod target) secrets w.getenv)
    (d : IsDeliverable p target) (cluster : w.in_cluster_config ≡ true)
    (client : w.new_for_config ≡ true) where
  -- For a request that wants a sidecar for a deliverable CRD, where the pod can be printed: the
  -- webhook answers with the pod and one more container. Where the cluster delivers that
  -- container's environment and lets its process reach the API server, and where zap can be built,
  -- the process monitors with the thresholds, the period and the storage of the CRD, and serves
  -- its metrics at the port that the container declares.
  pub handle-Serves :
      (s : Services) (req : Request) (om : OperatorMetrics) (text : String) (fl : Floats)
      (q : Quantities) (m : Metrics fl.F) (es : List Event)
      → Wants s req pod p target
      → s.marshal (record pod { containers = pod.containers ++ (container_of p pod target ∷ []) })
        ≡ some text
      → ((handle s req om).1 ≡ patched req.raw text) × Serves p pod target w fl q m es
  unfolding respond
  handle-Serves s req om text fl q m es want printed =
      let (n, low, high, built, ports, started) =
        main-starts p pod target secrets w fl q m es want.targeted k d cluster client in
      (
        (handle-Attaches_iff s req om).1 pod p target want ∙ rw (printed, respond) refl,
        record {
          port = n;
          low = low;
          high = high;
          declared = ports;
          started = started;
          settings = (load_config-IsDelivered p pod target secrets w k d cluster client).1;
        },
      )
