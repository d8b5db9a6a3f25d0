-- ===== src/Webhook/Builder/Url.antt =====
-- The entry for the scrape URL in the sidecar's environment.
use pprof_operator.Prelude.{
  ◌≡◌, refl, ap, true, some, List, [], ◌∷◌, ◌++◌, append-nil, String, ◌==◌, arith, contains,
  Bool-cases, inl, inr, if◌then◌else◌,
}
use pprof_operator.Api.{Profiler, auth_type_basic}
use pprof_operator.Kube.{EnvVar, Pod, literal}
use pprof_operator.Webhook.ScrapeTarget.{
  get_scrape_target_url, get_scrape_target_configuration, get_scrape_target_auth_type,
  get_scrape_target_basic_auth, build_basic_auth_env_vars, build_secret_auth_env_vars,
}
use pprof_operator.Webhook.Builder.Names.{last_named, last_named-append, last_named-absent, Names}
use pprof_operator.Webhook.Builder.Blocks.{auth_type-name}

abbrev pub auth_names : List String
auth_names = "AUTH_TYPE" ∷ "AUTH_USERNAME" ∷ "AUTH_PASSWORD" ∷ []

basic_auth-Names :
    (p : Profiler) (pod : Pod) → Names auth_names (get_scrape_target_basic_auth p pod)
unfolding get_scrape_target_basic_auth build_basic_auth_env_vars build_secret_auth_env_vars
basic_auth-Names p pod = ground arith

auth_type-Names :
    (p : Profiler) (pod : Pod) → contains (get_scrape_target_auth_type p pod).name auth_names ≡ true
auth_type-Names p pod = ap (λ n. contains n auth_names) (auth_type-name p pod)

-- What the configuration has behind the URL.
abbrev pub auth_part : Profiler → Pod → List EnvVar
auth_part p pod =
    let auth_type = get_scrape_target_auth_type p pod in
    if auth_type.value == ""
    then []
    else auth_type
      ∷ (if auth_type.value == auth_type_basic then get_scrape_target_basic_auth p pod else [])

pub auth_part-Names : (p : Profiler) (pod : Pod) → Names auth_names (auth_part p pod)
auth_part-Names p pod =
    let t = get_scrape_target_auth_type p pod in
    elim (Bool-cases (t.value == "")) [
      | inl e ↦ rw e tt
      | inr e ↦ elim (Bool-cases (t.value == auth_type_basic)) [
        | inl b ↦ rw (e, b) (auth_type-Names p pod, basic_auth-Names p pod)
        | inr b ↦ rw (e, b) (auth_type-Names p pod, tt)
      ]
    ]

-- The URL's entry counts.
pub url_entry :
    (p : Profiler) (pod : Pod) (url : String)
    → get_scrape_target_url p pod ≡ literal "SCRAPE_URL" url ∷ []
    → last_named "SCRAPE_URL" (get_scrape_target_configuration p pod ++ [])
      ≡ some (literal "SCRAPE_URL" url)
unfolding get_scrape_target_configuration
url_entry p pod url h =
    rw
      (
        append-nil,
        last_named-append "SCRAPE_URL" (get_scrape_target_url p pod) (auth_part p pod),
        last_named-absent "SCRAPE_URL" auth_names (auth_part p pod) (auth_part-Names p pod) refl,
        h,
      )
      refl
