-- ===== src/Sidecar/Metrics/Server.antt =====
-- The server of the sidecar's metrics: Handler and StartMetricsServer of
-- sidecar/pkg/metrics/metrics.go. `promhttp.HandlerFor` makes the handler of a registry and is a
-- parameter.
use pprof_operator.Prelude.{none, some, String}
use pprof_operator.Http.{Mux, http_handle, Serving, panics, Listener, listen_and_serve}

module _ {State H : Type 0} (handler_for : State → H) (registry : State) where
  -- `Handler`.
  unfoldable pub handler : H
  handler = handler_for registry

  -- `StartMetricsServer`.
  unfoldable pub start_metrics_server : Listener → String → Mux H → Serving H
  unfolding handler
  start_metrics_server listen addr mux = elim (http_handle "/metrics" handler mux) [
    | none ↦ panics
    | some mux' ↦ listen_and_serve listen addr mux'
  ]
