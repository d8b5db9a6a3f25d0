-- ===== src/Webhook/ScrapeTarget/Auth.antt =====
-- The credentials that the environment hands to the sidecar, as a choice between four sources.
use pprof_operator.Prelude.{
  ◌≡◌, refl, or_empty, not, ◌&&◌, lookup, Bool-cases, inl, inr, Option, none, some, List, [], ◌∷◌,
  String, ◌==◌, arith, get_or_empty, if◌then◌else◌,
}
use pprof_operator.Api.{Profiler, BasicAuth, SecretRef}
use pprof_operator.Kube.{EnvVar, literal, from_secret, Pod}
use pprof_operator.Webhook.Annotations.{
  annotation_scrape_auth_username, annotation_scrape_auth_password, annotation_scrape_auth_secret,
  annotation_scrape_auth_username_key, annotation_scrape_auth_password_key,
}
use pprof_operator.Webhook.ScrapeTarget.{
  SecretAuth, CrdAuth, non_empty, secret_auth_of, basic_auth_vars, crd_env_vars, crd_secret_ref,
  basic_auth_of, crd_auth_of, get_annotation_auth, get_secret_annotation_auth, get_crd_auth,
  get_scrape_target_basic_auth, build_basic_auth_env_vars, build_secret_auth_env_vars,
}

-- A user with a password, or the name of a secret with the keys of the two in it.
pub data Credentials : Type 0 where
  direct : (username password : String) → Credentials
  by_secret : (name username_key password_key : String) → Credentials

-- A user and a password that are both given.
abbrev pub direct_of : String → String → Option Credentials
direct_of u p = if u == "" then none else if p == "" then none else some (direct u p)

-- A secret that is named; its keys have defaults.
abbrev pub secret_of : String → String → String → Option Credentials
secret_of name uk pk =
    if name == ""
    then none
    else some
        (by_secret name (if uk == "" then "username" else uk) (if pk == "" then "password" else pk))

abbrev pub first_some : List (Option Credentials) → Option Credentials
first_some [] = none
first_some (none ∷ os) = first_some os
first_some (some c ∷ os) = some c

abbrev pub annotation : String → Pod → String
annotation key pod = get_or_empty key pod.annotations

abbrev crd_direct : Option BasicAuth → Option Credentials
crd_direct none = none
crd_direct (some b) = direct_of b.username b.password

abbrev crd_secret : Option SecretRef → Option Credentials
crd_secret none = none
crd_secret (some r) = secret_of r.name r.username_key r.password_key

abbrev crd_by_secret : Option BasicAuth → Option Credentials
crd_by_secret none = none
crd_by_secret (some b) = crd_secret b.secret_ref

-- The sources, the one that counts most first.
abbrev pub sources : Profiler → Pod → List (Option Credentials)
sources p pod =
    direct_of (annotation annotation_scrape_auth_username pod)
      (annotation annotation_scrape_auth_password pod)
    ∷ secret_of (annotation annotation_scrape_auth_secret pod)
        (annotation annotation_scrape_auth_username_key pod)
        (annotation annotation_scrape_auth_password_key pod)
    ∷ crd_direct (basic_auth_of p.spec.scrap_target)
    ∷ crd_by_secret (basic_auth_of p.spec.scrap_target)
    ∷ []

-- The two variables for the credentials.
abbrev pub env_vars : Option Credentials → List EnvVar
env_vars none = []
env_vars (some (direct u p)) = literal "AUTH_USERNAME" u ∷ literal "AUTH_PASSWORD" p ∷ []
env_vars (some (by_secret n uk pk)) =
    from_secret "AUTH_USERNAME" n uk ∷ from_secret "AUTH_PASSWORD" n pk ∷ []

abbrev secret_credentials : SecretAuth → Credentials
secret_credentials s = by_secret s.name s.username_key s.password_key

abbrev pair_credentials : String × String → Credentials
pair_credentials (u, p) = direct u p

abbrev map_option : {A : Type 0} → (A → Credentials) → Option A → Option Credentials
map_option f none = none
map_option f (some a) = some (f a)

pair_source :
    (u p : String)
    → map_option pair_credentials (if not (u == "") && not (p == "") then some (u, p) else none)
      ≡ direct_of u p
pair_source u p = elim (Bool-cases (u == "")) [
  | inl e ↦ rw e refl
  | inr e ↦ elim (Bool-cases (p == "")) [ inl k ↦ rw (e, k) refl | inr k ↦ rw (e, k) refl ]
]

get_annotation_auth-source :
    (pod : Pod)
    → map_option pair_credentials (get_annotation_auth pod)
      ≡ direct_of
          (annotation annotation_scrape_auth_username pod)
          (annotation annotation_scrape_auth_password pod)
unfolding get_annotation_auth
get_annotation_auth-source pod =
    pair_source (annotation annotation_scrape_auth_username pod)
      (annotation annotation_scrape_auth_password pod)

secret_source :
    (o : Option String) (uk pk : String)
    → map_option secret_credentials (secret_auth_of (non_empty o) uk pk)
      ≡ secret_of (or_empty o) uk pk
secret_source none uk pk = refl
secret_source (some v) uk pk = elim (Bool-cases (v == "")) [ inl e ↦ rw e refl | inr e ↦ rw e refl ]

get_secret_annotation_auth-source :
    (pod : Pod)
    → map_option secret_credentials (get_secret_annotation_auth pod)
      ≡ secret_of
          (annotation annotation_scrape_auth_secret pod)
          (annotation annotation_scrape_auth_username_key pod)
          (annotation annotation_scrape_auth_password_key pod)
unfolding get_secret_annotation_auth
get_secret_annotation_auth-source pod =
    secret_source (lookup annotation_scrape_auth_secret pod.annotations) _ _

-- The credentials that a `crdAuth` stands for.
abbrev crd_credentials : CrdAuth → Option Credentials
crd_credentials a =
    if a.direct_auth
    then some (direct a.username a.password)
    else map_option secret_credentials a.secret_ref

abbrev bind_credentials : Option CrdAuth → Option Credentials
bind_credentials none = none
bind_credentials (some a) = crd_credentials a

crd_secret_source :
    (o : Option SecretRef) → bind_credentials (crd_secret_ref o) ≡ first_some (crd_secret o ∷ [])
crd_secret_source none = refl
crd_secret_source (some r) = elim (Bool-cases (r.name == "")) [
  | inl e ↦ rw e refl
  | inr e ↦ rw e refl
]

crd_source :
    (o : Option BasicAuth)
    → bind_credentials (crd_auth_of o) ≡ first_some (crd_direct o ∷ crd_by_secret o ∷ [])
crd_source none = refl
crd_source (some b) = elim (Bool-cases (b.username == "")) [
  | inl e ↦ rw e (crd_secret_source b.secret_ref)
  | inr e ↦ elim (Bool-cases (b.password == "")) [
    | inl k ↦ rw (e, k) (crd_secret_source b.secret_ref)
    | inr k ↦ rw (e, k) refl
  ]
]

get_crd_auth-source :
    (p : Profiler)
    → bind_credentials (get_crd_auth p)
      ≡ first_some (
          crd_direct (basic_auth_of p.spec.scrap_target)
          ∷ crd_by_secret (basic_auth_of p.spec.scrap_target)
          ∷ [])
unfolding get_crd_auth
get_crd_auth-source p = crd_source (basic_auth_of p.spec.scrap_target)

crd_env_vars-source : (a : CrdAuth) → crd_env_vars a ≡ env_vars (crd_credentials a)
unfolding build_basic_auth_env_vars build_secret_auth_env_vars
crd_env_vars-source a = ground arith

vars_source :
    (a : Option (String × String)) (s : Option SecretAuth) (c : Option CrdAuth)
    (os : List (Option Credentials))
    → bind_credentials c ≡ first_some os
    → basic_auth_vars a s c
      ≡ env_vars (first_some (map_option pair_credentials a ∷ map_option secret_credentials s ∷ os))
unfolding build_basic_auth_env_vars build_secret_auth_env_vars
vars_source (some (u, p)) s c os h = refl
vars_source none (some s) c os h = refl
vars_source none none (some a) os h = rw (← h) (crd_env_vars-source a)
vars_source none none none os h = rw (← h) refl

-- The variables are those of the first source that is complete: the annotations' user and password,
-- the annotations' secret, the CRD's user and password, the CRD's secret. With none of them there
-- are no variables.
pub get_scrape_target_basic_auth-eq-first :
    (p : Profiler) (pod : Pod)
    → get_scrape_target_basic_auth p pod ≡ env_vars (first_some (sources p pod))
unfolding get_scrape_target_basic_auth
get_scrape_target_basic_auth-eq-first p pod =
    rw (← get_annotation_auth-source pod, ← get_secret_annotation_auth-source pod)
      (vars_source _ _ _ _ (get_crd_auth-source p))
