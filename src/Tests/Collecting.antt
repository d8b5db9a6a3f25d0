-- ===== src/Tests/Collecting.antt =====
-- Collections of one profile on concrete answers.
use pprof_operator.Prelude.{
  ◌<>◌, ℕ, ◌≡◌, ◌≢◌, ◌↔◌, refl, true, none, some, List, [], ◌∷◌, ◌++◌, String, arith, eq_iff,
}
use pprof_operator.Text.FilePath.{join}
use pprof_operator.Text.FilePath.Parts.{IsPart}
use pprof_operator.Sidecar.Collect.Key.{IsPlain, heap, s3_key-injective}
use pprof_operator.Sidecar.Metrics.{Metrics, no_metrics}
use pprof_operator.Sidecar.Collect.{
  Effect, make_dir, remove_dir, profile_filename, s3_key, collect_and_upload_profile,
}
use pprof_operator.Sidecar.Collect.Effects.{
  AllGood, IsFetched, stores, collect_ok_iff, collect-remove_dir, collect-stores_iff,
}
use pprof_operator.Tests.Answers.{config, world}

some-ne-none : {t : String} → some t ≢ none
some-ne-none = λ h. absurd (ground (arith, h))

url_set : config.scrap_target.scrape_url ≢ ""
url_set = λ h. absurd (ground (arith, h, eq_iff config.scrap_target.scrape_url ""))

world-AllGood : AllGood world config
world-AllGood = record {
  has_dir = some-ne-none;
  has_url = url_set;
  asks = refl;
  answers = refl;
  creates = refl;
  writes = refl;
  loads = refl;
  opens = refl;
  puts = refl;
  removes = refl;
}

abbrev metrics : Metrics ℕ
metrics = no_metrics

collect_ok_iff_example :
    ((collect_and_upload_profile world config "heap" metrics).error ≡ none) ↔ AllGood world config
collect_ok_iff_example = collect_ok_iff world config "heap" metrics

collect-remove_dir_example :
    (es : List Effect) × ((collect_and_upload_profile world config "heap" metrics).effects
      ≡ make_dir "/tmp/pprof-1" ∷ (es ++ (remove_dir "/tmp/pprof-1" ∷ [])))
collect-remove_dir_example = collect-remove_dir world config "heap" metrics "/tmp/pprof-1" refl

profile_paths :
    let filename = profile_filename config "heap" "20240101-000000" in
    (join ("/tmp/pprof-1" ∷ filename ∷ []) ≡ "/tmp/pprof-1/heap-pod-1-app-20240101-000000.pprof")
    × (s3_key config filename ≡ "prod/pod-1/heap-pod-1-app-20240101-000000.pprof")
unfolding profile_filename s3_key join
profile_paths = (refl, refl)

collect-stores_iff_example :
    (stores (collect_and_upload_profile world config "heap" metrics).effects ≡ true)
    ↔ IsFetched world config
collect-stores_iff_example = collect-stores_iff world config "heap" metrics

pub pod-IsPart : IsPart "pod-1"
pod-IsPart = record { no_slash = ground arith; not_empty = refl; not_here = refl; not_up = refl }

pub prefix_named : config.s3_path_prefix ≢ ""
prefix_named = λ h. absurd (ground (arith, h, eq_iff config.s3_path_prefix ""))

config-IsPlain : IsPlain config "20240101-000000"
config-IsPlain = record { pod = pod-IsPart; container = ground arith; timestamp = ground arith }

s3_key-injective_example :
    ◌≡◌ {A = String} "pod-1" "pod-1"
    × ◌≡◌ {A = String} "heap" "heap"
    × ("app" <> ("-" <> "20240101-000000") ≡ "app" <> ("-" <> "20240101-000000"))
s3_key-injective_example =
    s3_key-injective config config "heap" "heap" "20240101-000000" "20240101-000000" prefix_named
      refl config-IsPlain config-IsPlain (heap refl) (heap refl) refl
