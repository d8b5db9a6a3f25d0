-- ===== src/Manager.antt =====
-- The start of the operator: `main` of cmd/main.go. Flags are parsed, certificate watchers made,
-- the manager created and filled, and started at last; the first call that fails ends the process.
-- The framework answers through `Framework`; what is asked of it is a list of steps.
pub mod Servers
pub mod Init
pub mod Startup
use pprof_operator.Prelude.{
  Bool, true, false, not, Option, none, some, List, [], ◌∷◌, ◌++◌, String, ◌==◌, if◌then◌else◌,
}
use pprof_operator.Text.FilePath.{join}

pub record Flags : Type 0 where
  pub metrics_addr : String
  pub metrics_cert_path : String
  pub metrics_cert_name : String
  pub metrics_cert_key : String
  pub webhook_cert_path : String
  pub webhook_cert_name : String
  pub webhook_cert_key : String
  pub enable_leader_election : Bool
  pub probe_addr : String
  pub secure_metrics : Bool
  pub enable_http2 : Bool

-- The values of the flags that are not given.
abbrev pub default_flags : Flags
default_flags = record {
  metrics_addr = "0";
  metrics_cert_path = "";
  metrics_cert_name = "tls.crt";
  metrics_cert_key = "tls.key";
  webhook_cert_path = "";
  webhook_cert_name = "tls.crt";
  webhook_cert_key = "tls.key";
  enable_leader_election = false;
  probe_addr = ":8081";
  secure_metrics = true;
  enable_http2 = false;
}

-- A certificate watcher, by the two files that it watches.
pub record CertWatcher : Type 0 where
  pub certificate : String
  pub key : String

-- The functions on a `tls.Config` that the program hands over.
pub data TlsOption : Type 0 where
  disable_http2 : TlsOption
  get_certificate : CertWatcher → TlsOption

-- The two fields of a `tls.Config` that they set.
pub record TlsConfig : Type 0 where
  pub next_protos : List String
  pub certificate : Option CertWatcher

abbrev pub apply : TlsOption → TlsConfig → TlsConfig
apply disable_http2 c = record c { next_protos = "http/1.1" ∷ [] }
apply (get_certificate w) c = record c { certificate = some w }

-- A server applies its options in order.
abbrev pub configure : List TlsOption → TlsConfig → TlsConfig
configure [] c = c
configure (o ∷ os) c = configure os (apply o c)

-- `ctrl.Options`, with the options of the two servers in them.
pub record Options : Type 0 where
  pub bind_address : String
  pub secure_serving : Bool
  pub authenticated : Bool
  pub metrics_tls : List TlsOption
  pub webhook_tls : List TlsOption
  pub probe_address : String
  pub leader_election : Bool
  pub leader_election_id : String

abbrev watcher_at : String → String → String → Option CertWatcher
watcher_at path name key =
    if path == ""
    then none
    else some (record { certificate = join (path ∷ name ∷ []); key = join (path ∷ key ∷ []) })

unfoldable pub webhook_cert_watcher : Flags → Option CertWatcher
webhook_cert_watcher f = watcher_at f.webhook_cert_path f.webhook_cert_name f.webhook_cert_key

unfoldable pub metrics_cert_watcher : Flags → Option CertWatcher
metrics_cert_watcher f = watcher_at f.metrics_cert_path f.metrics_cert_name f.metrics_cert_key

unfoldable pub tls_opts : Flags → List TlsOption
tls_opts f = if not f.enable_http2 then disable_http2 ∷ [] else []

abbrev pub with_watcher : Option CertWatcher → List TlsOption → List TlsOption
with_watcher none os = os
with_watcher (some w) os = os ++ (get_certificate w ∷ [])

-- Both servers begin with the common options. The common slice is full, so that neither of the two
-- calls of `append` writes into the other's.
unfoldable pub options : Flags → Options
unfolding tls_opts
options f = record {
  bind_address = f.metrics_addr;
  secure_serving = f.secure_metrics;
  authenticated = f.secure_metrics;
  metrics_tls = with_watcher (metrics_cert_watcher f) (tls_opts f);
  webhook_tls = with_watcher (webhook_cert_watcher f) (tls_opts f);
  probe_address = f.probe_addr;
  leader_election = f.enable_leader_election;
  leader_election_id = "00211243.pprof-operator.dev";
}

pub data Step : Type 0 where
  new_webhook_cert_watcher new_metrics_cert_watcher : CertWatcher → Step
  get_config : Step
  new_manager : Options → Step
  setup_controller setup_pod_webhook : Step
  add_metrics_cert_watcher add_webhook_cert_watcher : CertWatcher → Step
  add_healthz_check add_readyz_check start : Step

-- The call that failed.
pub data StartError : Type 0 where
  failed : Step → StartError

-- Which calls succeed; a run makes no call twice.
abbrev pub Framework : Type 0
Framework = Step → Bool

-- What a run of `main` asks for, and the failure that made it exit with status 1.
pub record Outcome : Type 0 where
  pub steps : List Step
  pub error : Option StartError

-- One call, and the rest of the program if it succeeds.
abbrev pub attempt : Framework → Step → Outcome → Outcome
attempt fw step rest =
    if fw step
    then record rest { steps = step ∷ rest.steps }
    else record { steps = step ∷ []; error = some (failed step) }

-- A call that is made only for a watcher that exists.
abbrev pub attempt_for : Framework → (CertWatcher → Step) → Option CertWatcher → Outcome → Outcome
attempt_for fw step none rest = rest
attempt_for fw step (some w) rest = attempt fw (step w) rest

abbrev pub finished : Outcome
finished = record { steps = []; error = none }

unfoldable pub main : Framework → Flags → Outcome
main fw f = attempt_for fw new_webhook_cert_watcher (webhook_cert_watcher f) (
    attempt_for fw new_metrics_cert_watcher (metrics_cert_watcher f) (
      attempt fw get_config (
        attempt fw (new_manager (options f)) (
          attempt fw setup_controller (
            attempt fw setup_pod_webhook (
              attempt_for fw add_metrics_cert_watcher (metrics_cert_watcher f) (
                attempt_for fw add_webhook_cert_watcher (webhook_cert_watcher f) (
                  attempt fw add_healthz_check
                    (attempt fw add_readyz_check (attempt fw start finished))))))))))
