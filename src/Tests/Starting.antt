-- ===== src/Tests/Starting.antt =====
-- The controller and the start of the operator.
use pprof_operator.Prelude.{length, ◌++◌, ◌≡◌, refl, true, false, none, [], ◌∷◌}
use pprof_operator.Manager.{
  default_flags, Flags, Framework, Step, TlsConfig, configure, options, webhook_cert_watcher,
  metrics_cert_watcher, main,
}
use pprof_operator.Manager.Servers.{served, options-served}
use pprof_operator.Manager.Startup.{preparations, has_start, Ends, main-Ends}

-- A certificate for the webhook, none for the metrics.
abbrev flags : Flags
flags = record default_flags { webhook_cert_path = "/certs" }

-- The controller cannot be set up.
abbrev framework : Framework
framework Step.setup_controller = false
framework _ = true

main_stops :
    (has_start (main framework flags).steps ≡ false) × (length (main framework flags).steps ≡ 4)
unfolding main webhook_cert_watcher metrics_cert_watcher
main_stops = (refl, refl)

options-served_example :
    let c : TlsConfig = record { next_protos = "h2" ∷ []; certificate = none } in
    (configure (options flags).webhook_tls c ≡ served flags (webhook_cert_watcher flags) c)
    × (configure (options flags).metrics_tls c ≡ served flags (metrics_cert_watcher flags) c)
    × ((options flags).authenticated ≡ (options flags).secure_serving)
options-served_example =
    options-served flags (record { next_protos = "h2" ∷ []; certificate = none })

main-Ends_example : Ends framework (preparations flags ++ (Step.start ∷ [])) (main framework flags)
main-Ends_example = main-Ends framework flags
