-- ===== src/Contract/Serving.antt =====
-- The sidecar's start in the container that the operator builds.
use pprof_operator.Prelude.{
  ℕ, ◌≤◌, ◌≡◌, ◌≢◌, refl, true, [], ◌∷◌, List, Option, String, ◌<>◌, arith, eq_iff, ok,
  if◌then◌else◌,
}
use text.Mathlib.TextLemmas.{cons-append, cons-ne-nil}
use pprof_operator.Prelude.Int.{pos}
use pprof_operator.Text.Decimal.{itoa}
use pprof_operator.Text.Decimal.Shape.{NoDollar, NoDollar-append, itoa-NoDollar}
use pprof_operator.Api.{Profiler}
use pprof_operator.Kube.{Pod}
use pprof_operator.Webhook.Builder.{
  sidecar_env, target_container, container_of, build_profiler_sidecar,
}
use pprof_operator.Webhook.Builder.Ports.{build_profiler_sidecar-port}
use pprof_operator.Webhook.Mutator.Injection.{build_profiler_sidecar_of_target}
use pprof_operator.Contract.{Delivers}
use pprof_operator.Contract.Settings.{IsDeliverable, load_config-IsDelivered}
use pprof_operator.Contract.Scraping.{wants_debug, init_from_env-delivered}
use pprof_operator.Sidecar.Config.{Surroundings, config_of, or_text}
use pprof_operator.Sidecar.Logging.{production, development, debug_level, info_level}
use pprof_operator.Sidecar.Metrics.{Metrics}
use pprof_operator.Sidecar.Kubelet.{Floats, Quantities}
use pprof_operator.Sidecar.Monitor.{Event, monitor_resource_usage}
use pprof_operator.Sidecar.Start.{starts, main}

address-NoDollar : (n : ℕ) → NoDollar (":" <> itoa (pos n))
address-NoDollar n = NoDollar-append ":" (itoa (pos n)) (omega arith) (itoa-NoDollar (pos n))

colon-ne-nil : (s : String) → (":" <> s) ≢ ""
colon-ne-nil s = rw cons-append (cons-ne-nil _ _)

-- A text behind a colon is not empty.
or_text_of_colon : (s d : String) → or_text (":" <> s) d ≡ ":" <> s
or_text_of_colon s d = ground (arith, eq_iff (":" <> s) "", colon-ne-nil s)

-- The sidecar in the container that the operator builds for a deliverable CRD, in a cluster that
-- delivers its environment and lets it reach the API server, where zap can be built, starts: it
-- logs at the level that the annotation asks for, listens for the metrics' readers at the very
-- port that the container declares, a port between 1 and 65535, and monitors with the
-- configuration it loaded.
pub main-starts :
    (p : Profiler) (pod : Pod) (target : String) (secrets : String → String → Option String)
    (w : Surroundings) (fl : Floats) (q : Quantities) (m : Metrics fl.F) (es : List Event)
    → target_container pod ≡ ok target
    → Delivers (sidecar_env p pod target) secrets w.getenv
    → IsDeliverable p target
    → w.in_cluster_config ≡ true
    → w.new_for_config ≡ true
    → (n : ℕ) × (1 ≤ n)
      × (n ≤ 65535)
      × (build_profiler_sidecar p pod ≡ ok (container_of p pod target))
      × ((container_of p pod target).ports
          ≡ record { name = "metrics"; container_port = pos n; protocol = "TCP" } ∷ [])
      × (main fl q w true m es
          ≡ starts
              (if wants_debug pod then development debug_level else production info_level)
              (":" <> itoa (pos n))
              (monitor_resource_usage fl q (config_of w) m es))
unfolding main
main-starts p pod target secrets w fl q m es named k d i c =
    let built = build_profiler_sidecar_of_target p pod target named in
    let (n, low, high, ports, addr) = build_profiler_sidecar-port p pod built in
    let loaded = (load_config-IsDelivered p pod target secrets w k d i c).0 in
    let level = init_from_env-delivered p pod target secrets w.getenv k in
    let given = k.given "METRICS_ADDR" (":" <> itoa (pos n)) addr (address-NoDollar n) in
    (
      n,
      low,
      high,
      built,
      ports,
      rw (loaded, main, level, given) (rw (or_text_of_colon (itoa (pos n)) ":8080") refl),
    )
