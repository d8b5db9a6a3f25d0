-- ===== src/Tests/Answers.antt =====
-- A configuration of the sidecar and the answers of its surroundings.
use pprof_operator.Prelude.{true, false, ℕ, ◌*◌, ◌/◌, none, some, [], ◌∷◌, String, leb}
use pprof_operator.Prelude.Int.{ℤ, pos, negsuc}
use pprof_operator.Text.Decimal.{atoi}
use pprof_operator.Sidecar.Storage.{Cloud}
use pprof_operator.Sidecar.Collect.{World}
use pprof_operator.Sidecar.Kubelet.{Floats, Quantities, Answers}
use pprof_operator.Sidecar.Monitor.{Tick}
use pprof_operator.Tests.Data.{pod}
use pprof_operator.Sidecar.Config.{Config}

abbrev pub config : Config
config = record {
  target_container = "app";
  cpu_threshold = pos 80;
  memory_threshold = pos 70;
  profile_duration = pos 30;
  monitoring_period = pos 15_000_000_000;
  s3_bucket = "profiles";
  s3_region = "us-west-2";
  s3_path_prefix = "prod";
  s3_endpoint = "";
  s3_force_path_style = false;
  aws_access_key_id = "";
  aws_secret_key = "";
  scrap_target = record { scrape_url = "http://localhost:6060/debug/pprof"; auth = none };
  namespace = "apps";
  pod_name = "pod-1";
  pod_uid = "";
}

-- Fixed-point numbers of three decimals.
abbrev pub fixed_point : Floats
fixed_point = record {
  F = ℕ;
  of_int = λ v. elim v [ pos n ↦ n * 1000 | negsuc n ↦ 0 ];
  div = λ a b. a * 1000 / b;
  mul = λ a b. a * b / 1000;
  ge = λ a b. leb b a;
}

abbrev amount_of : String → ℤ
amount_of s = elim (atoi s) [ none ↦ pos 0 | some v ↦ v ]

abbrev pub quantities : Quantities
quantities = record { milli_value = amount_of; value = amount_of }

abbrev pub all_well : Cloud
all_well = record { loads = true; opens = true; puts = true }

abbrev pub world : World
world = record {
  temp_dir = some "/tmp/pprof-1";
  removes = true;
  timestamp = "20240101-000000";
  new_request = true;
  response = some 200;
  creates = true;
  writes = true;
  cloud = all_well;
}

-- 450 of 500 milli-CPUs, 1500 of 2000 bytes.
abbrev pub answers : Answers
answers = record {
  pod = λ namespace name. some pod;
  raw = λ path. some "stats";
  unmarshal = λ _. some (
      record {
        name = "pod-1";
        namespace = "apps";
        uid = "4f2a";
        containers =
            record { name = "app"; usage_nano_cores = 450_000_000; working_set_bytes = 1500 } ∷ [];
      }
      ∷ []);
  node_capacity = λ node. none;
}

abbrev pub tick_at : ℕ → Tick
tick_at now = record { answers = answers; now = now; cpu_world = world; heap_world = world }
