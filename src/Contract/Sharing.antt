-- ===== src/Contract/Sharing.antt =====
-- The sidecar and the sample application in one pod: the containers of a pod share their ports.
use pprof_operator.Prelude.{
  ℕ, ◌≤◌, ◌≡◌, true, false, none, some, List, [], ◌∷◌, String, ◌<>◌, Bool, eqb, ◌||◌,
}
use pprof_operator.Prelude.Int.{ℤ, pos}
use pprof_operator.Text.Decimal.{itoa}
use pprof_operator.Kube.{ContainerPort}
use pprof_operator.Http.{Listener, Serving, serves, returns}
use pprof_operator.SampleApp as SampleApp
use pprof_operator.SampleApp.{Page, app_mux}
use pprof_operator.Prometheus.{Registry}
use pprof_operator.Contract.Collectors.{Promhttp, IsServed}
use pprof_operator.Sidecar.Collectors as Sidecar
use pprof_operator.Sidecar.Metrics.{Metrics}
use pprof_operator.Sidecar.Metrics.Server.{start_metrics_server}
use pprof_operator.Sidecar.Start.{main}

-- The address of a port on all interfaces.
abbrev pub address : ℕ → String
address n = ":" <> itoa (pos n)

abbrev pub holds : List ℕ → ℕ → Bool
holds [] n = false
holds (m ∷ ms) n = eqb m n || holds ms n

-- The pod's network, where some ports are listened on, on all interfaces, and nothing else is: a
-- port that is held cannot be listened on again, and any other port can.
pub record Network : Type 0 where
  pub listen : List ℕ → Listener
  pub taken :
      (held : List ℕ) (n : ℕ)
      → 1 ≤ n
      → n ≤ 65535
      → holds held n ≡ true
      → (e : String) × (listen held (address n) ≡ some e)
  pub free :
      (held : List ℕ) (n : ℕ)
      → 1 ≤ n
      → n ≤ 65535
      → holds held n ≡ false
      → listen held (address n) ≡ none

abbrev first_port : List ContainerPort → ℤ
first_port [] = pos 0
first_port (p ∷ ps) = p.container_port

module _ (net : Network) (getenv : String → String) (unset : getenv "PORT" ≡ "") (r : Registry)
    (prom : Promhttp r) (after : r.State) (served : IsServed r prom after) (port : ℕ) where
  -- The application when the sidecar has its port, and the sidecar when the application has its.
  abbrev pub app_second : Serving Page
  app_second = SampleApp.main getenv (net.listen (port ∷ []))

  abbrev pub sidecar_second : Serving prom.Handler
  sidecar_second =
      start_metrics_server prom.handler_for after (net.listen (8080 ∷ [])) (address port) []

  -- Both serve, whichever comes first.
  pub record Share : Type 1 where
    pub app : app_second ≡ serves ":8080" app_mux
    pub sidecar : sidecar_second ≡ serves (address port) served.mux

  -- Whichever comes second does not serve.
  pub record Collide : Type 1 where
    pub app_error : String
    pub app : app_second ≡ returns app_error
    pub sidecar_error : String
    pub sidecar : sidecar_second ≡ returns sidecar_error
