-- ===== src/Contract/Scraping.antt =====
-- How the sidecar scrapes, logs and exposes its metrics, from the pod's annotations and the CRD.
use pprof_operator.Prelude.{
  ◌≡◌, ◌≢◌, refl, ◌∙◌, ap, Bool, true, false, Option, none, some, [], ◌∷◌, ◌++◌, append-nil, String,
  arith, eq_iff, lookup, Bool-cases, inl, inr, if◌then◌else◌,
}
use pprof_operator.Text.Decimal.Shape.{NoDollar}
use pprof_operator.Api.{Profiler, auth_type_basic}
use pprof_operator.Kube.{EnvVar, Pod, literal}
use pprof_operator.Webhook.Annotations.{annotation_debug}
use pprof_operator.Webhook.ScrapeTarget.{
  get_scrape_target_configuration, get_scrape_target_url, get_scrape_target_auth_type,
}
use pprof_operator.Webhook.ScrapeTarget.Auth.{
  Credentials, direct, by_secret, sources, first_some, env_vars,
  get_scrape_target_basic_auth-eq-first,
}
use pprof_operator.Webhook.Builder.{is_debug, debug_env, sidecar_env}
use pprof_operator.Webhook.Builder.Names.{last_named, last_named-append}
use pprof_operator.Webhook.Builder.Blocks.{last_named-sidecar_env}
use pprof_operator.Contract.{Delivers}
use pprof_operator.Sidecar.Config.{get_scrap_target}
use pprof_operator.Sidecar.Collect.{request_auth}
use pprof_operator.Sidecar.Logging.{production, development, debug_level, info_level, init_from_env}

-- The annotation asks for debug logging.
abbrev pub wants_debug : Pod → Bool
wants_debug pod = elim (lookup annotation_debug pod.annotations) [
  | none ↦ false
  | some v ↦ is_debug v
]

auth_type_lem :
    (p : Profiler) (pod : Pod)
    → get_scrape_target_auth_type p pod
      ≡ literal "AUTH_TYPE" (get_scrape_target_auth_type p pod).value
unfolding get_scrape_target_auth_type
auth_type_lem p pod = ground arith

-- The user and the password that the credentials stand for, with texts that Kubernetes leaves
-- alone.
abbrev pub Resolves : (String → String → Option String) → Credentials → String → String → Type 0
Resolves secrets (direct a b) u w = (a ≡ u) × (b ≡ w) × NoDollar u × NoDollar w
Resolves secrets (by_secret n uk pk) u w = (secrets n uk ≡ some u) × (secrets n pk ≡ some w)

module _ (p : Profiler) (pod : Pod) (target : String) (secrets : String → String → Option String)
    (getenv : String → String) (k : Delivers (sidecar_env p pod target) secrets getenv) where
  -- In a container that is delivered its environment, and where zap can be built, the sidecar logs
  -- at the debug level if the annotation asks for it, and else at the info level.
  pub init_from_env-delivered :
      init_from_env getenv true
      ≡ (if wants_debug pod then development debug_level else production info_level)
  unfolding init_from_env debug_env
  init_from_env-delivered = elim (Bool-cases (wants_debug pod)) [
    | inl wants ↦ rw wants (
        rw
          (k.given "DEBUG" "true" (last_named-sidecar_env p pod "DEBUG" target ∙ ground arith)
            (omega arith))
          refl)
    | inr plain ↦ rw plain (
        rw
          (
            k.absent "DEBUG" refl (last_named-sidecar_env p pod "DEBUG" target ∙ ground arith),
            k.absent "LOG_LEVEL" refl
                (last_named-sidecar_env p pod "LOG_LEVEL" target ∙ ground arith),
          )
          refl)
  ]

  module _ (c : Credentials) (basic : (get_scrape_target_auth_type p pod).value ≡ auth_type_basic)
      (chosen : first_some (sources p pod) ≡ some c) where
    configuration_lem :
        get_scrape_target_configuration p pod
        ≡ get_scrape_target_url p pod ++ (literal "AUTH_TYPE" "Basic" ∷ env_vars (some c))
    unfolding get_scrape_target_configuration
    configuration_lem =
        rw (auth_type_lem p pod ∙ ap (literal "AUTH_TYPE") basic)
          (rw (get_scrape_target_basic_auth-eq-first p pod, chosen) refl)

    scrape_entry :
        (n : String)
        → last_named n (get_scrape_target_url p pod) ≡ none
        → (e : EnvVar) → last_named n (literal "AUTH_TYPE" "Basic" ∷ env_vars (some c)) ≡ some e
        → last_named n (get_scrape_target_configuration p pod ++ []) ≡ some e
    scrape_entry n h e g = rw (append-nil, configuration_lem, last_named-append, g) refl

    auth_type_delivered : getenv "AUTH_TYPE" ≡ "Basic"
    unfolding get_scrape_target_url
    auth_type_delivered =
        k.given "AUTH_TYPE" "Basic"
          (last_named-sidecar_env p pod "AUTH_TYPE" target
            ∙ scrape_entry "AUTH_TYPE" (ground arith) _ (ground arith))
          (omega arith)

    username_entry :
        (e : EnvVar)
        → last_named "AUTH_USERNAME" (env_vars (some c)) ≡ some e
        → last_named "AUTH_USERNAME" (sidecar_env p pod target) ≡ some e
    unfolding get_scrape_target_url
    username_entry e h =
        last_named-sidecar_env p pod "AUTH_USERNAME" target
        ∙ scrape_entry "AUTH_USERNAME" (ground arith) e (ground arith)

    password_entry :
        (e : EnvVar)
        → last_named "AUTH_PASSWORD" (env_vars (some c)) ≡ some e
        → last_named "AUTH_PASSWORD" (sidecar_env p pod target) ≡ some e
    unfolding get_scrape_target_url
    password_entry e h =
        last_named-sidecar_env p pod "AUTH_PASSWORD" target
        ∙ scrape_entry "AUTH_PASSWORD" (ground arith) e (ground arith)

  credentials_delivered :
      (c : Credentials) (u w : String)
      → (get_scrape_target_auth_type p pod).value ≡ auth_type_basic
      → first_some (sources p pod) ≡ some c
      → Resolves secrets c u w
      → (getenv "AUTH_USERNAME" ≡ u) × (getenv "AUTH_PASSWORD" ≡ w)
  credentials_delivered (direct a b) u w basic chosen (x, y, m, n) = (
    k.given "AUTH_USERNAME" a (username_entry (direct a b) basic chosen _ refl) (rw x m) ∙ x,
    k.given "AUTH_PASSWORD" b (password_entry (direct a b) basic chosen _ refl) (rw y n) ∙ y,
  )
  credentials_delivered (by_secret s uk pk) u w basic chosen (x, y) = (
    k.from_secrets "AUTH_USERNAME" s uk u (username_entry (by_secret s uk pk) basic chosen _ refl)
        x,
    k.from_secrets "AUTH_PASSWORD" s pk w (password_entry (by_secret s uk pk) basic chosen _ refl)
        y,
  )

  -- In a container that is delivered its environment, where the authentication type is Basic and
  -- some source of credentials is complete, the sidecar sends its requests with the user and the
  -- password of the first such source, be they written out with no "$" in them or kept in a secret,
  -- if neither is empty. The secret is the one of that name in the pod's own namespace, whatever
  -- namespace the CRD's reference names.
  pub request_auth-delivered :
      (c : Credentials) (u w : String)
      → (get_scrape_target_auth_type p pod).value ≡ auth_type_basic
      → first_some (sources p pod) ≡ some c
      → Resolves secrets c u w
      → u ≢ ""
      → w ≢ ""
      → request_auth (get_scrap_target getenv) ≡ some (u, w)
  unfolding request_auth get_scrap_target
  request_auth-delivered c u w basic chosen r hu hw =
      let (eu, ew) = credentials_delivered c u w basic chosen r in
      rw (auth_type_delivered c basic chosen, eu, ew) (ground (arith, eq_iff u "", eq_iff w ""))
