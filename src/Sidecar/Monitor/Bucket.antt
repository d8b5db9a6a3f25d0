-- ===== src/Sidecar/Monitor/Bucket.antt =====
-- What a run of the loop stores, as the bucket has it afterwards.
pub mod Counts
pub mod Objects
pub mod Uploads
use pprof_operator.Prelude.{◌&&◌, Bool, List, [], ◌∷◌, ◌++◌, String, ◌==◌, contains, if◌then◌else◌}
use pprof_operator.Text.FilePath.Parts.{NoSlash}
use pprof_operator.Sidecar.Config.{Config}
use pprof_operator.Sidecar.Metrics.{no_metrics}
use pprof_operator.Sidecar.Collect.{World, profile_filename, s3_key, collect_and_upload_profile}
use pprof_operator.Sidecar.Collect.Effects.{stores}
use pprof_operator.Sidecar.Kubelet.{Floats, Quantities}
use pprof_operator.Sidecar.Monitor.{Tick, Event, done, tick, Call, State, on_tick}

-- A profile that was stored: its type and the text of its time.
abbrev pub Profile : Type 0
Profile = String × String

-- The keys of a bucket after objects were put under `ks`, in order: an object that is put under a
-- key replaces the one that is there.
abbrev pub objects : List String → List String
objects [] = []
objects (k ∷ ks) = if contains k ks then objects ks else k ∷ objects ks

abbrev pub world_of : Tick → String → World
world_of t profile_type = if profile_type == "heap" then t.heap_world else t.cpu_world

-- The times that a run has are free of slashes.
abbrev pub HasPlainTimes : List Event → Type 0
HasPlainTimes [] = Unit
HasPlainTimes (done ∷ es) = Unit
HasPlainTimes (tick t ∷ es) =
    (NoSlash t.cpu_world.timestamp × NoSlash t.heap_world.timestamp) × HasPlainTimes es

module _ (fl : Floats) (q : Quantities) (c : Config) where
  open fl use {F}

  abbrev pub key : Profile → String
  key p = s3_key c (profile_filename c p.0 p.1)

  -- Whether a collection asks S3 to put an object, and S3 does.
  abbrev pub is_stored : World → String → Bool
  is_stored w profile_type =
      w.cloud.puts
      && stores (collect_and_upload_profile {F = F} w c profile_type no_metrics).effects

  abbrev pub stored_by : World → String → List Profile
  stored_by w profile_type =
      if is_stored w profile_type then (profile_type, w.timestamp) ∷ [] else []

  abbrev pub stored_calls : Tick → List Call → List Profile
  stored_calls t [] = []
  stored_calls t (k ∷ ks) =
      stored_by (world_of t k.profile_type) k.profile_type ++ stored_calls t ks

  -- The profiles that a run stores, in order.
  unfoldable pub stored : List Event → State F → List Profile
  stored [] s = []
  stored (done ∷ es) s = []
  stored (tick t ∷ es) s = stored_calls t (on_tick fl q c t s).1 ++ stored es (on_tick fl q c t s).0
