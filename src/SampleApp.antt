-- ===== src/SampleApp.antt =====
-- The application that the samples deploy: config/samples/examples/sample-app/main.go. The load
-- that its handlers and its goroutine make is left out.
use pprof_operator.Prelude.{
  ◌≡◌, refl, Option, none, some, arith, List, [], ◌∷◌, String, ◌<>◌, ◌==◌, if◌then◌else◌,
}
use pprof_operator.Http.{
  Mux, http_handle, Serving, panics, serves, returns, Listener, listen_and_serve, answered_by,
}

-- The handlers: those of net/http/pprof, and the program's own.
pub data Page : Type 0 where
  index cmdline profile symbol trace : Page
  hello load_cpu load_memory : Page

-- What importing net/http/pprof leaves in the default multiplexer.
abbrev pub pprof_mux : Mux Page
pprof_mux =
    ("/debug/pprof/", index)
    ∷ ("/debug/pprof/cmdline", cmdline)
    ∷ ("/debug/pprof/profile", profile)
    ∷ ("/debug/pprof/symbol", symbol)
    ∷ ("/debug/pprof/trace", trace)
    ∷ []

-- `http.HandleFunc` calls, one after the other.
abbrev handle_all : {H : Type 0} → List (String × H) → Mux H → Option (Mux H)
handle_all [] mux = some mux
handle_all ((p, h) ∷ hs) mux = elim (http_handle p h mux) [
  | none ↦ none
  | some mux' ↦ handle_all hs mux'
]

unfoldable pub pages : List (String × Page)
pages = ("/", hello) ∷ ("/load/cpu", load_cpu) ∷ ("/load/memory", load_memory) ∷ []

unfoldable pub port_of : (String → String) → String
port_of getenv = if getenv "PORT" == "" then "8080" else getenv "PORT"

-- `main`, as far as it serves; `log.Fatal` ends the process with what the server returns.
unfoldable pub main : (String → String) → Listener → Serving Page
unfolding pages port_of
main getenv listen = elim (handle_all pages pprof_mux) [
  | none ↦ panics
  | some mux ↦ listen_and_serve listen (":" <> port_of getenv) mux
]

-- The multiplexer that it serves by.
abbrev pub app_mux : Mux Page
app_mux = ("/load/memory", load_memory) ∷ ("/load/cpu", load_cpu) ∷ ("/", hello) ∷ pprof_mux

-- With no port given it listens at ":8080".
module _ (getenv : String → String) (listen : Listener) (unset : getenv "PORT" ≡ "") where
  pub main-serves : listen ":8080" ≡ none → main getenv listen ≡ serves ":8080" app_mux
  unfolding main
  main-serves h = rw (unset, main) (ground (arith, h))

  pub main-returns : {e : String} → listen ":8080" ≡ some e → main getenv listen ≡ returns e
  unfolding main
  main-returns h = rw (unset, main) (ground (arith, h))

-- The paths of the profiles that the sidecar asks for, and others.
app_mux_tests :
    (answered_by app_mux "/debug/pprof/heap" ≡ some index)
    × (answered_by app_mux "/debug/pprof/profile" ≡ some profile)
    × (answered_by app_mux "/load/cpu" ≡ some load_cpu)
    × (answered_by app_mux "/metrics" ≡ some hello)
app_mux_tests = (refl, refl, refl, refl)
