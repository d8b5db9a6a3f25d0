-- ===== src/Webhook/ScrapeTarget.antt =====
-- Where the sidecar scrapes profiles and how it authenticates: the pod's annotations come first and
-- the CRD after them (internal/webhook/v1/utility.go).
pub mod Auth
pub mod Namespace
use pprof_operator.Prelude.{
  Bool, true, false, not, ◌&&◌, Option, none, some, List, [], ◌∷◌, ◌++◌, String, ◌==◌, lookup,
  get_or_empty, if◌then◌else◌,
}
use pprof_operator.Api.{Profiler, ScrapTarget, BasicAuth, SecretRef, auth_type_basic}
use pprof_operator.Kube.{EnvVar, literal, from_secret, Pod}
use pprof_operator.Webhook.Annotations.{
  annotation_scrape_url, annotation_scrape_auth_type, annotation_scrape_auth_username,
  annotation_scrape_auth_password, annotation_scrape_auth_secret,
  annotation_scrape_auth_username_key, annotation_scrape_auth_password_key,
}

abbrev pub non_empty : Option String → Option String
non_empty none = none
non_empty (some v) = if v == "" then none else some v

-- `v, ok := pod.Annotations[key]; ok && v != ""`, and the value.
abbrev pub set_annotation : String → Pod → Option String
set_annotation key pod = non_empty (lookup key pod.annotations)

abbrev pub crd_auth_type : Option ScrapTarget → String
crd_auth_type none = ""
crd_auth_type (some t) = elim t.auth [ none ↦ "" | some a ↦ a.type ]

unfoldable pub get_scrape_target_auth_type : Profiler → Pod → EnvVar
get_scrape_target_auth_type p pod = elim (set_annotation annotation_scrape_auth_type pod) [
  | some v ↦ literal "AUTH_TYPE" v
  | none ↦ literal "AUTH_TYPE" (crd_auth_type p.spec.scrap_target)
]

abbrev pub crd_scrape_url : Option ScrapTarget → List EnvVar
crd_scrape_url none = []
crd_scrape_url (some t) = if t.scrape_url == "" then [] else literal "SCRAPE_URL" t.scrape_url ∷ []

unfoldable pub get_scrape_target_url : Profiler → Pod → List EnvVar
get_scrape_target_url p pod = elim (set_annotation annotation_scrape_url pod) [
  | some v ↦ literal "SCRAPE_URL" v ∷ []
  | none ↦ crd_scrape_url p.spec.scrap_target
]

-- `secretAuth`.
pub record SecretAuth : Type 0 where
  pub name : String
  pub username_key : String
  pub password_key : String

-- The pair is what the Go function returns with `ok`. A value that is not empty is present.
unfoldable pub get_annotation_auth : Pod → Option (String × String)
get_annotation_auth pod =
    let username = get_or_empty annotation_scrape_auth_username pod.annotations in
    let password = get_or_empty annotation_scrape_auth_password pod.annotations in
    if not (username == "") && not (password == "") then some (username, password) else none

-- A key that is the empty string gets its default.
abbrev pub or_default : String → String → String
or_default key d = if key == "" then d else key

abbrev pub secret_auth_of : Option String → String → String → Option SecretAuth
secret_auth_of none username_key password_key = none
secret_auth_of (some secret) username_key password_key = some (record {
  name = secret;
  username_key = or_default username_key "username";
  password_key = or_default password_key "password";
})

unfoldable pub get_secret_annotation_auth : Pod → Option SecretAuth
get_secret_annotation_auth pod =
    secret_auth_of (set_annotation annotation_scrape_auth_secret pod)
      (get_or_empty annotation_scrape_auth_username_key pod.annotations)
      (get_or_empty annotation_scrape_auth_password_key pod.annotations)

-- `crdAuth`.
pub record CrdAuth : Type 0 where
  pub direct_auth : Bool
  pub username : String
  pub password : String
  pub secret_ref : Option SecretAuth

abbrev pub crd_secret : SecretRef → CrdAuth
crd_secret r = record {
  direct_auth = false;
  username = "";
  password = "";
  secret_ref = some (record {
    name = r.name;
    username_key = or_default r.username_key "username";
    password_key = or_default r.password_key "password";
  });
}

abbrev pub crd_secret_ref : Option SecretRef → Option CrdAuth
crd_secret_ref none = none
crd_secret_ref (some r) = if r.name == "" then none else some (crd_secret r)

abbrev pub crd_basic_auth : BasicAuth → Option CrdAuth
crd_basic_auth b =
    if not (b.username == "") && not (b.password == "")
    then some (record {
      direct_auth = true;
      username = b.username;
      password = b.password;
      secret_ref = none;
    })
    else crd_secret_ref b.secret_ref

-- The chain of nil checks down to `BasicAuth`.
abbrev pub basic_auth_of : Option ScrapTarget → Option BasicAuth
basic_auth_of none = none
basic_auth_of (some t) = elim t.auth [ none ↦ none | some a ↦ a.basic_auth ]

abbrev pub crd_auth_of : Option BasicAuth → Option CrdAuth
crd_auth_of none = none
crd_auth_of (some b) = crd_basic_auth b

unfoldable pub get_crd_auth : Profiler → Option CrdAuth
get_crd_auth p = crd_auth_of (basic_auth_of p.spec.scrap_target)

unfoldable pub build_basic_auth_env_vars : String → String → List EnvVar
build_basic_auth_env_vars username password =
    literal "AUTH_USERNAME" username ∷ literal "AUTH_PASSWORD" password ∷ []

unfoldable pub build_secret_auth_env_vars : String → String → String → List EnvVar
build_secret_auth_env_vars secret username_key password_key =
    from_secret "AUTH_USERNAME" secret username_key
    ∷ from_secret "AUTH_PASSWORD" secret password_key
    ∷ []

abbrev pub secret_env_vars : SecretAuth → List EnvVar
secret_env_vars s = build_secret_auth_env_vars s.name s.username_key s.password_key

abbrev pub crd_env_vars : CrdAuth → List EnvVar
crd_env_vars a =
    if a.direct_auth
    then build_basic_auth_env_vars a.username a.password
    else elim a.secret_ref [ none ↦ [] | some s ↦ secret_env_vars s ]

-- The annotations' credentials, the annotations' secret, the CRD's credentials.
abbrev pub basic_auth_vars :
    Option (String × String) → Option SecretAuth → Option CrdAuth → List EnvVar
basic_auth_vars (some (username, password)) s c = build_basic_auth_env_vars username password
basic_auth_vars none (some s) c = secret_env_vars s
basic_auth_vars none none (some a) = crd_env_vars a
basic_auth_vars none none none = []

unfoldable pub get_scrape_target_basic_auth : Profiler → Pod → List EnvVar
get_scrape_target_basic_auth p pod =
    basic_auth_vars (get_annotation_auth pod) (get_secret_annotation_auth pod) (get_crd_auth p)

unfoldable pub get_scrape_target_configuration : Profiler → Pod → List EnvVar
get_scrape_target_configuration p pod =
    let auth_type = get_scrape_target_auth_type p pod in
    get_scrape_target_url p pod
    ++ (if auth_type.value == ""
        then []
        else auth_type
          ∷ (if auth_type.value == auth_type_basic then get_scrape_target_basic_auth p pod else []))
