-- ===== src/Sidecar/Start.antt =====
-- The start of the sidecar: `main` of sidecar/cmd/main.go. The goroutine that waits for a signal
-- ends the loop by the event `done`; the goroutine of the metrics server is seen by its address
-- alone.
use pprof_operator.Prelude.{Bool, String, List, ok, err}
use pprof_operator.Sidecar.Config.{ConfigError, Surroundings, or_text, load_config}
use pprof_operator.Sidecar.Logging.{Logger, init_from_env}
use pprof_operator.Sidecar.Metrics.{Metrics}
use pprof_operator.Sidecar.Kubelet.{Floats, Quantities}
use pprof_operator.Sidecar.Monitor.{Event, Run, monitor_resource_usage}

-- `os.Exit(1)`, or the address that the metrics server is given and the run of the loop.
pub data Outcome (F : Type 0) : Type 0 where
  exits : Logger → ConfigError → Outcome F
  starts : (logger : Logger) (metrics_addr : String) → Run F → Outcome F

unfoldable pub main :
    (fl : Floats) → Quantities → Surroundings → Bool → Metrics fl.F → List Event → Outcome fl.F
main fl q w build m es =
    let logger = init_from_env w.getenv build in
    elim (load_config w) [
      | err e ↦ exits logger e
      | ok c ↦
          starts logger (or_text (w.getenv "METRICS_ADDR") ":8080")
            (monitor_resource_usage fl q c m es)
    ]
