-- ===== src/Manager/Servers.antt =====
-- How the two servers of the operator speak TLS.
use pprof_operator.Prelude.{◌≡◌, refl, Option, none, some, [], ◌∷◌, arith, if◌then◌else◌}
use pprof_operator.Manager.{
  Flags, CertWatcher, TlsConfig, configure, with_watcher, webhook_cert_watcher,
  metrics_cert_watcher, tls_opts, options,
}

-- The configuration that a server should end with: HTTP/2 only if the flag asks for it, and the
-- certificate of its own watcher, if it has one.
abbrev pub served : Flags → Option CertWatcher → TlsConfig → TlsConfig
served f own c = record {
  next_protos = if f.enable_http2 then c.next_protos else "http/1.1" ∷ [];
  certificate = elim own [ none ↦ c.certificate | some w ↦ some w ];
}

configure-with_watcher :
    (f : Flags) (own : Option CertWatcher) (c : TlsConfig)
    → configure (with_watcher own (tls_opts f)) c ≡ served f own c
unfolding tls_opts
configure-with_watcher f own c = ground arith

-- Unless HTTP/2 is asked for, both servers, whatever configuration they begin with, speak HTTP/1.1
-- alone; each of them gets its certificate from its own watcher and never from the other's; and the
-- metrics are served to authenticated readers exactly if they are served securely.
pub options-served :
    (f : Flags) (c : TlsConfig)
    → (configure (options f).webhook_tls c ≡ served f (webhook_cert_watcher f) c)
      × (configure (options f).metrics_tls c ≡ served f (metrics_cert_watcher f) c)
      × ((options f).authenticated ≡ (options f).secure_serving)
unfolding options
options-served f c = (
  configure-with_watcher f (webhook_cert_watcher f) c,
  configure-with_watcher f (metrics_cert_watcher f) c,
  refl,
)
