-- ===== src/Contract/Profiles.antt =====
-- What the sidecar asks the container and S3 for, in the words of the CRD and of its own pod.
use pprof_operator.Prelude.{
  ◌≡◌, ◌≢◌, refl, ◌∙◌, ap, true, Option, some, List, [], ◌∷◌, String, ◌<>◌, ◌==◌, arith, eq_iff,
  if◌then◌else◌,
}
use pprof_operator.Prelude.Int.{pos, wrap64, ◌+ℤ◌, ◌*ℤ◌}
use pprof_operator.Text.FilePath.{join}
use pprof_operator.Text.Decimal.Shape.{NoDollar}
use pprof_operator.Api.{Profiler}
use pprof_operator.Kube.{EnvVar, Pod, literal}
use pprof_operator.Webhook.ScrapeTarget.{get_scrape_target_url, get_scrape_target_configuration}
use pprof_operator.Webhook.Builder.{from_field, base_env, sidecar_env}
use pprof_operator.Webhook.Builder.Names.{last_named}
use pprof_operator.Webhook.Builder.Blocks.{last_named-sidecar_env}
use pprof_operator.Contract.{Delivers}
use pprof_operator.Webhook.Builder.Url.{url_entry}
use pprof_operator.Contract.Settings.{IsDeliverable, load_config-IsDelivered}
use pprof_operator.Sidecar.Config.{Config, default_profile_duration, Surroundings, config_of}
use pprof_operator.Sidecar.Metrics.{Metrics}
use pprof_operator.Sidecar.Storage.{PutObject, s3_client}
use pprof_operator.Sidecar.Collect.{
  World, Effect, make_dir, remove_dir, send, close_body, create_file, write_file, close_file,
  put_object, ProfileRequest, profile_filename, profile_request, s3_key, s3_config,
  collect_and_upload_profile,
}
use pprof_operator.Sidecar.Collect.Effects.{AllGood, collect_ok_effects}

-- What Kubernetes promises of an entry that refers to a field of the pod, by the field's path.
abbrev pub DeliversFields : List EnvVar → (String → Option String) → (String → String) → Type 0
DeliversFields env fields getenv =
    (n path v : String)
    → last_named n env ≡ some (from_field n path)
    → fields path ≡ some v
    → getenv n ≡ v

-- Type, pod, container and time.
abbrev pub filename_of : String → String → String → String → String
filename_of t name target ts =
    t <> ("-" <> (name <> ("-" <> (target <> ("-" <> (ts <> ".pprof"))))))

abbrev pub key_of : String → String → String → String
key_of prefix name filename =
    if prefix == "" then filename else join (prefix ∷ name ∷ filename ∷ [])

-- A collection that asks `request` of the container and stores what comes as `object`.
abbrev pub stored : String → String → ProfileRequest → PutObject → List Effect
stored dir path request object =
    make_dir dir
    ∷ send request
    ∷ create_file path
    ∷ write_file path
    ∷ put_object object
    ∷ close_file path
    ∷ close_body
    ∷ remove_dir dir
    ∷ []

key_lem :
    (c : Config) (prefix name filename : String)
    → c.s3_path_prefix ≡ prefix
    → c.pod_name ≡ name
    → s3_key c filename ≡ key_of prefix name filename
unfolding s3_key
key_lem c prefix name filename e e' = rw (e, e') (ground arith)

timeout_lem :
    (c : Config) (t : String)
    → c.profile_duration ≡ default_profile_duration
    → (profile_request c t).timeout ≡ pos 40_000_000_000
unfolding profile_request wrap64 ◌+ℤ◌ ◌*ℤ◌
timeout_lem c t e = rw e refl

module _ (p : Profiler) (pod : Pod) (target : String) (secrets : String → String → Option String)
    (w : Surroundings) (k : Delivers (sidecar_env p pod target) secrets w.getenv)
    (fields : String → Option String)
    (f : DeliversFields (sidecar_env p pod target) fields w.getenv) where
  name_delivered :
      (name : String)
      → fields "metadata.name" ≡ some name
      → name ≢ ""
      → (config_of w).pod_name ≡ name
  unfolding config_of base_env
  name_delivered name h set =
      let got : w.getenv "POD_NAME" ≡ name =
        f "POD_NAME" "metadata.name" name (last_named-sidecar_env p pod "POD_NAME" target ∙ refl)
          h in
      rw got (ground (arith, eq_iff name ""))

  pub url_delivered :
      (url : String)
      → get_scrape_target_url p pod ≡ literal "SCRAPE_URL" url ∷ []
      → NoDollar url
      → (config_of w).scrap_target.scrape_url ≡ url
  unfolding config_of get_scrape_target_configuration
  url_delivered url h plain =
      k.given "SCRAPE_URL" url
        (last_named-sidecar_env p pod "SCRAPE_URL" target ∙ url_entry p pod url h) plain

  -- The sidecar that the operator builds from a deliverable CRD with a scrape URL that has no "$" in
  -- it, in a cluster that delivers its environment, with the pod's name, and lets it reach the API
  -- server: a collection in which all goes well asks that URL for the profile's type, with a timeout
  -- of 40 seconds, as the operator sets no duration and the sidecar's default is 30, and stores what
  -- comes in the CRD's bucket, under the CRD's prefix and the pod's name if the prefix is not empty,
  -- and under a name made of the type, the pod, the target container and the time.
  pub collect-delivered :
      {F : Type 0} (world : World) (t name url dir : String) (m : Metrics F)
      → IsDeliverable p target
      → w.in_cluster_config ≡ true
      → w.new_for_config ≡ true
      → fields "metadata.name" ≡ some name
      → name ≢ ""
      → get_scrape_target_url p pod ≡ literal "SCRAPE_URL" url ∷ []
      → NoDollar url
      → world.temp_dir ≡ some dir
      → AllGood world (config_of w)
      → let filename = filename_of t name target world.timestamp in
        let path = join (dir ∷ filename ∷ []) in
        (request : ProfileRequest) × (object : PutObject) × ((collect_and_upload_profile world
            (config_of w)
            t
            m).effects
          ≡ stored dir path request object)
        × (request.url ≡ url <> ("/" <> t))
        × (request.timeout ≡ pos 40_000_000_000)
        × (object.bucket ≡ p.spec.s3_bucket)
        × (object.key ≡ key_of p.spec.s3_path_prefix name filename)
        × (object.body ≡ path)
  unfolding profile_filename profile_request
  collect-delivered world t name url dir m d i c named set scraped plain made good =
      let settings = (load_config-IsDelivered p pod target secrets w k d i c).1 in
      let config = config_of w in
      let own = name_delivered name named set in
      let from = url_delivered url scraped plain in
      let file : profile_filename config t world.timestamp
          ≡ filename_of t name target world.timestamp =
        rw (own, settings.container) refl in
      let path = ap (λ v. join (dir ∷ v ∷ [])) file in
      (
        profile_request config t,
        record {
          client = s3_client (s3_config config);
          bucket = config.s3_bucket;
          key = s3_key config (profile_filename config t world.timestamp);
          body = join (dir ∷ profile_filename config t world.timestamp ∷ []);
        },
        collect_ok_effects world config t m dir made good
            ∙ ap
                (λ v. stored dir v (profile_request config t) (record {
                  client = s3_client (s3_config config);
                  bucket = config.s3_bucket;
                  key = s3_key config (profile_filename config t world.timestamp);
                  body = join (dir ∷ profile_filename config t world.timestamp ∷ []);
                }))
                path,
        rw from refl,
        timeout_lem config t settings.duration,
        settings.bucket,
        ap (s3_key config) file ∙ key_lem config _ _ _ settings.prefix own,
        path,
      )
