-- ===== src/Contract/Storage.antt =====
-- The storage that the sidecar uploads to: its endpoint and the credentials for it, from the CRD,
-- the secret it names, and the pod's annotations.
use pprof_operator.Prelude.{
  ◌≡◌, ◌≢◌, refl, ◌∙◌, ap, Bool, true, false, Option, none, some, List, [], ◌∷◌, String, contains,
  or_empty, lookup, Option-cases, inl, inr, arith, eq_iff,
}
use pprof_operator.Text.Decimal.Shape.{NoDollar}
use pprof_operator.Api.{Profiler}
use pprof_operator.Kube.{EnvVar, Pod, literal, from_secret}
use pprof_operator.Webhook.Annotations.{annotation_s3_endpoint, annotation_s3_force_path_style}
use pprof_operator.Webhook.Settings.{get_aws_configuration}
use pprof_operator.Webhook.ScrapeTarget.{set_annotation}
use pprof_operator.Webhook.Builder.{sidecar_env, storage_env}
use pprof_operator.Webhook.Builder.Names.{last_named}
use pprof_operator.Webhook.Builder.Blocks.{last_named-sidecar_env}
use pprof_operator.Contract.{Delivers, sidecar_variables}
use pprof_operator.Sidecar.Config.{Surroundings, config_of, force_path_style}
use pprof_operator.Sidecar.Storage.{S3Config, load_aws_config, s3_client}
use pprof_operator.Sidecar.Collect.{s3_config}

-- Where the CRD has its credentials.
pub data Gives (p : Profiler) (secrets : String → String → Option String) (id key : String)
    : Type 0 where
  in_secret :
      p.spec.aws_credentials_secret ≢ ""
      → secrets p.spec.aws_credentials_secret "AWS_ACCESS_KEY_ID" ≡ some id
      → secrets p.spec.aws_credentials_secret "AWS_SECRET_ACCESS_KEY" ≡ some key
      → Gives p secrets id key
  in_crd :
      p.spec.aws_credentials_secret ≡ ""
      → p.spec.aws_access_key_id ≡ id
      → p.spec.aws_secret_access_key ≡ key
      → NoDollar id
      → NoDollar key
      → Gives p secrets id key

abbrev text_entry : String → Option String → Option EnvVar
text_entry n none = none
text_entry n (some v) = some (literal n v)

abbrev pub IsPlain : Option String → Type 0
IsPlain none = Unit
IsPlain (some v) = NoDollar v

text_delivered :
    {env : List EnvVar} {secrets : String → String → Option String} {getenv : String → String}
    (n : String) (o : Option String)
    → Delivers env secrets getenv
    → contains n sidecar_variables ≡ true
    → last_named n env ≡ text_entry n o
    → IsPlain o
    → getenv n ≡ or_empty o
text_delivered n none k r e h = k.absent n r e
text_delivered n (some v) k r e h = k.given n v e h

-- An annotation that counts as set is not the empty string.
set_annotation-ne-nil : (key : String) (pod : Pod) → set_annotation key pod ≢ some ""
set_annotation-ne-nil key pod = λ h. elim (Option-cases (lookup key pod.annotations)) [
  | inl unset ↦ absurd (ground arith)
  | inr (v, set) ↦ absurd (ground (arith, eq_iff v ""))
]

-- The four texts that ask for path-style addresses.
abbrev pub asks_path_style : Option String → Bool
asks_path_style none = false
asks_path_style (some v) = contains v ("1" ∷ "true" ∷ "TRUE" ∷ "True" ∷ [])

force_path_style-eq :
    (style : Option String) → force_path_style (or_empty style) ≡ asks_path_style style
unfolding force_path_style
force_path_style-eq none = refl
force_path_style-eq (some v) = ground (
  arith,
  eq_iff v "1",
  eq_iff v "true",
  eq_iff v "TRUE",
  eq_iff v "True",
  eq_iff "1" v,
  eq_iff "true" v,
  eq_iff "TRUE" v,
  eq_iff "True" v,
)

-- The annotations' endpoint, with path-style addresses if they ask for them.
abbrev pub endpoint_of : Option String → Option String → Option (String × Bool)
endpoint_of none style = none
endpoint_of (some e) style = some (e, asks_path_style style)

n_of_text : (v : String) → some v ≢ some "" → v ≢ ""
n_of_text v n = λ h. n (ap some h)

endpoint_lem :
    (c : S3Config) (e style : Option String)
    → c.s3_endpoint ≡ or_empty e
    → c.s3_force_path_style ≡ asks_path_style style
    → e ≢ some ""
    → (s3_client c).endpoint ≡ endpoint_of e style
unfolding s3_client
endpoint_lem c none style h i n = ground (arith, eq_iff c.s3_endpoint "")
endpoint_lem c (some v) style h i n =
    ground (arith, eq_iff c.s3_endpoint "", n_of_text v n, eq_iff v "")

module _ (p : Profiler) (pod : Pod) (target : String) (secrets : String → String → Option String)
    (w : Surroundings) (k : Delivers (sidecar_env p pod target) secrets w.getenv) where
  secret_entry :
      p.spec.aws_credentials_secret ≢ ""
      → let s = p.spec.aws_credentials_secret in
        (last_named "AWS_ACCESS_KEY_ID" (sidecar_env p pod target)
          ≡ some (from_secret "AWS_ACCESS_KEY_ID" s "AWS_ACCESS_KEY_ID"))
        × (last_named "AWS_SECRET_ACCESS_KEY" (sidecar_env p pod target)
            ≡ some (from_secret "AWS_SECRET_ACCESS_KEY" s "AWS_SECRET_ACCESS_KEY"))
  unfolding get_aws_configuration
  secret_entry h = (
    last_named-sidecar_env p pod "AWS_ACCESS_KEY_ID" target
        ∙ ground (arith, eq_iff p.spec.aws_credentials_secret ""),
    last_named-sidecar_env p pod "AWS_SECRET_ACCESS_KEY" target
        ∙ ground (arith, eq_iff p.spec.aws_credentials_secret ""),
  )

  crd_entry :
      (id key : String)
      → p.spec.aws_credentials_secret ≡ ""
      → p.spec.aws_access_key_id ≡ id
      → p.spec.aws_secret_access_key ≡ key
      → id ≢ ""
      → key ≢ ""
      → (last_named "AWS_ACCESS_KEY_ID" (sidecar_env p pod target)
          ≡ some (literal "AWS_ACCESS_KEY_ID" id))
        × (last_named "AWS_SECRET_ACCESS_KEY" (sidecar_env p pod target)
            ≡ some (literal "AWS_SECRET_ACCESS_KEY" key))
  unfolding get_aws_configuration
  crd_entry id key h i j a b = (
    last_named-sidecar_env p pod "AWS_ACCESS_KEY_ID" target
        ∙ ground (arith, eq_iff p.spec.aws_credentials_secret "", eq_iff id "", eq_iff key ""),
    last_named-sidecar_env p pod "AWS_SECRET_ACCESS_KEY" target
        ∙ ground (arith, eq_iff p.spec.aws_credentials_secret "", eq_iff id "", eq_iff key ""),
  )

  keys_delivered :
      (id key : String)
      → Gives p secrets id key
      → id ≢ ""
      → key ≢ ""
      → (w.getenv "AWS_ACCESS_KEY_ID" ≡ id) × (w.getenv "AWS_SECRET_ACCESS_KEY" ≡ key)
  keys_delivered id key (in_secret h i j) a b =
      let (x, y) = secret_entry h in
      (
        k.from_secrets "AWS_ACCESS_KEY_ID" _ _ id x i,
        k.from_secrets "AWS_SECRET_ACCESS_KEY" _ _ key y j,
      )
  keys_delivered id key (in_crd h i j m n) a b =
      let (x, y) = crd_entry id key h i j a b in
      (k.given "AWS_ACCESS_KEY_ID" id x m, k.given "AWS_SECRET_ACCESS_KEY" key y n)

  -- In a container that is delivered its environment, the upload's static credentials are those
  -- that the CRD gives, in the secret that it names or, where it names none, in its own fields, if
  -- both parts are there and neither is empty.
  pub load_aws_config-delivered :
      (id key : String)
      → Gives p secrets id key
      → id ≢ ""
      → key ≢ ""
      → (load_aws_config (s3_config (config_of w))).credentials ≡ some (id, key)
  unfolding load_aws_config config_of
  load_aws_config-delivered id key g a b =
      let (x, y) = keys_delivered id key g a b in
      rw (x, y) (ground (arith, eq_iff id "", eq_iff key ""))

  endpoint_entry :
      last_named "S3_ENDPOINT" (sidecar_env p pod target)
      ≡ text_entry "S3_ENDPOINT" (set_annotation annotation_s3_endpoint pod)
  unfolding storage_env
  endpoint_entry = last_named-sidecar_env p pod "S3_ENDPOINT" target ∙ ground arith

  style_entry :
      last_named "S3_FORCE_PATH_STYLE" (sidecar_env p pod target)
      ≡ text_entry "S3_FORCE_PATH_STYLE" (set_annotation annotation_s3_force_path_style pod)
  unfolding storage_env
  style_entry = last_named-sidecar_env p pod "S3_FORCE_PATH_STYLE" target ∙ ground arith

  -- In a container that is delivered its environment, where the annotations are free of "$", the
  -- client turns to the endpoint that they name, with path-style addresses exactly if the style is
  -- annotated as "1", "true", "TRUE" or "True", and without an endpoint to the SDK's own.
  pub s3_client-delivered :
      IsPlain (set_annotation annotation_s3_endpoint pod)
      → IsPlain (set_annotation annotation_s3_force_path_style pod)
      → (s3_client (s3_config (config_of w))).endpoint
        ≡ endpoint_of
            (set_annotation annotation_s3_endpoint pod)
            (set_annotation annotation_s3_force_path_style pod)
  unfolding config_of
  s3_client-delivered a b =
      let set_style = set_annotation annotation_s3_force_path_style pod in
      let x = text_delivered "S3_ENDPOINT" _ k refl endpoint_entry a in
      let y = text_delivered "S3_FORCE_PATH_STYLE" _ k refl style_entry b in
      endpoint_lem (s3_config (config_of w)) _ (set_annotation annotation_s3_force_path_style pod) x
        (ap force_path_style y ∙ force_path_style-eq set_style)
        (set_annotation-ne-nil annotation_s3_endpoint pod)
