-- ===== src/Tests/Copies.antt =====
-- A list of one profiler in memory.
use pprof_operator.Prelude.{refl, Option, none, some, List, [], ◌∷◌}
use pprof_operator.Prelude.Int.{pos}
use pprof_operator.Api.{Profiler, ProfileRecord, ProfilerStatus}
use pprof_operator.Api.Memory.{
  StoredProfiler, Heap, int32, secret, basic, auth, target, records, profilers, profiler_list,
  lists,
}
use pprof_operator.Api.DeepCopy.{profiler_list_deep_copy_object}
use pprof_operator.Api.DeepCopy.Copier.{view_pointer, points_pointer}
use pprof_operator.Api.DeepCopy.Views.{view_list, points_list}
use pprof_operator.Api.DeepCopy.Separate.{IsSeparate, profiler_list_deep_copy_object-IsSeparate}
use pprof_operator.Tests.Data.{profiler}

abbrev stored : StoredProfiler
stored = record {
  name = "default";
  spec = record {
    cpu_threshold = some 0;
    memory_threshold = none;
    monitoring_period = pos 20;
    s3_bucket = "profiles";
    s3_region = "";
    s3_path_prefix = "prod/";
    aws_credentials_secret = "aws";
    aws_access_key_id = "";
    aws_secret_access_key = "";
    scrap_target = some 4;
  };
  status = record { profiles = some 5 };
}

abbrev taken : ProfileRecord
taken = record { timestamp = pos 1; type = "heap"; s3_url = "s3://profiles/h"; reason = "memory" }

abbrev memory : Heap
memory =
    int32 (pos 70)
    ∷ secret
        (record { name = "scrape"; namespace = "apps"; username_key = ""; password_key = "pw" })
    ∷ basic (record { username = ""; password = ""; secret_ref = some 1 })
    ∷ auth (record { type = "Basic"; basic_auth = some 2 })
    ∷ target (record { scrape_url = "http://localhost:6060/debug/pprof"; auth = some 3 })
    ∷ records (taken ∷ [])
    ∷ profilers (stored ∷ [])
    ∷ profiler_list (record { items = some 6 })
    ∷ []

abbrev meant : Option (Option (List (Profiler × ProfilerStatus)))
meant = some (some ((profiler, record { profiles = some (taken ∷ []) }) ∷ []))

profiler_list_deep_copy_object-IsSeparate_example :
    IsSeparate
      (view_pointer lists view_list)
      (points_pointer lists points_list)
      memory
      (some 7)
      meant
      (profiler_list_deep_copy_object (some 7) memory)
profiler_list_deep_copy_object-IsSeparate_example =
    profiler_list_deep_copy_object-IsSeparate memory (some 7) meant refl
