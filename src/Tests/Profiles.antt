-- ===== src/Tests/Profiles.antt =====
-- The environment and a profile of the sidecar of the concrete profiler.
use pprof_operator.Prelude.{
  ◌≡◌, ◌≢◌, refl, sym, ◌∙◌, none, some, [], ◌∷◌, String, Option, ◌<>◌, arith,
}
use pprof_operator.Prelude.Int.{pos}
use pprof_operator.Text.FilePath.{join}
use pprof_operator.Kube.{literal}
use pprof_operator.Webhook.Builder.{sidecar_env}
use pprof_operator.Webhook.Builder.Distinct.{IsDistinct, sidecar_env-IsDistinct}
use pprof_operator.Webhook.ScrapeTarget.{get_scrape_target_url}
use pprof_operator.Contract.Profiles.{
  DeliversFields, filename_of, key_of, stored, url_delivered, collect-delivered,
}
use pprof_operator.Sidecar.Config.{config_of}
use pprof_operator.Sidecar.Metrics.{Metrics, no_metrics}
use pprof_operator.Sidecar.Storage.{PutObject}
use pprof_operator.Sidecar.Collect.{ProfileRequest, collect_and_upload_profile}
use pprof_operator.Sidecar.Collect.Effects.{AllGood}
use pprof_operator.Tests.Data.{profiler, pod, secrets}
use pprof_operator.Tests.Delivery.{
  not_empty, getenv, getenv-Delivers, surroundings, profiler-IsDeliverable,
}
use pprof_operator.Tests.Answers.{world}

-- The cluster gives a field's path for its value.
abbrev fields : String → Option String
fields path = some path

fields_delivered : DeliversFields (sidecar_env profiler pod "app") fields (getenv profiler)
fields_delivered n path v h e = rw h (cc e)

abbrev url : String
url = "http://localhost:6060/debug/pprof"

url_lem : get_scrape_target_url profiler pod ≡ literal "SCRAPE_URL" url ∷ []
unfolding get_scrape_target_url
url_lem = refl

some-ne-none : {t : String} → some t ≢ none
some-ne-none = λ h. absurd (ground (arith, h))

url_set : (config_of (surroundings profiler)).scrap_target.scrape_url ≢ ""
url_set h = not_empty url refl (
    sym (
      url_delivered profiler pod "app" secrets (surroundings profiler) (getenv-Delivers profiler)
        fields fields_delivered url url_lem (omega arith))
    ∙ h)

all_good : AllGood world (config_of (surroundings profiler))
all_good = record {
  has_dir = some-ne-none;
  has_url = url_set;
  asks = refl;
  answers = refl;
  creates = refl;
  writes = refl;
  loads = refl;
  opens = refl;
  puts = refl;
  removes = refl;
}

abbrev filename : String
filename = filename_of "heap" "metadata.name" "app" "20240101-000000"

abbrev metrics : Metrics (Unit {0})
metrics = no_metrics

collect-delivered_example :
    (request : ProfileRequest) × (object : PutObject) × ((collect_and_upload_profile world
        (config_of (surroundings profiler))
        "heap"
        metrics).effects
      ≡ stored "/tmp/pprof-1" (join ("/tmp/pprof-1" ∷ filename ∷ [])) request object)
    × (request.url ≡ url <> ("/" <> "heap"))
    × (request.timeout ≡ pos 40_000_000_000)
    × (object.bucket ≡ "profiles")
    × (object.key ≡ key_of "prod/" "metadata.name" filename)
    × (object.body ≡ join ("/tmp/pprof-1" ∷ filename ∷ []))
collect-delivered_example =
    collect-delivered profiler pod "app" secrets (surroundings profiler) (getenv-Delivers profiler)
      fields fields_delivered world "heap" "metadata.name" url "/tmp/pprof-1" metrics
      profiler-IsDeliverable refl refl refl (not_empty "metadata.name" refl) url_lem (omega arith)
      refl all_good

sidecar_env-IsDistinct_example : IsDistinct (sidecar_env profiler pod "app")
sidecar_env-IsDistinct_example = sidecar_env-IsDistinct profiler pod "app"
