-- ===== src/Sidecar/Collect/Counting.antt =====
-- What a collection counts.
use pprof_operator.Prelude.{
  ◌+◌, ◌≤◌, ◌≡◌, Bool, true, false, if◌then◌else◌, Option, none, some, String, ◌==◌, arith, eq_refl,
}
use pprof_operator.Sidecar.Config.{Config}
use pprof_operator.Sidecar.Metrics.{Metrics}
use pprof_operator.Sidecar.Storage.{upload_to_s3}
use pprof_operator.Sidecar.Collect.{
  World, CollectError, remove_failed, fetch, collect_and_upload_profile,
}

-- The errors of a collection whose object was stored.
abbrev pub is_stored : Option CollectError → Bool
is_stored none = true
is_stored (some remove_failed) = true
is_stored (some _) = false

module _ {F : Type 0} (w : World) (c : Config) (t : String) (m : Metrics F) where
  pub collect-threshold_exceeded :
      (collect_and_upload_profile w c t m).metrics.threshold_exceeded ≡ m.threshold_exceeded
  unfolding collect_and_upload_profile fetch upload_to_s3
  collect-threshold_exceeded = ground arith

  -- A profile of the type is counted as generated at most once, and as uploaded or failed to upload
  -- only if it was counted as generated.
  pub collect-generated :
      let m' = (collect_and_upload_profile w c t m).metrics in
      (m'.profiles_generated t ≤ m.profiles_generated t + 1)
      × (m'.profiles_uploaded + m'.profile_upload_errors + m.profiles_generated t
          ≤ m.profiles_uploaded + m.profile_upload_errors + m'.profiles_generated t)
      × (m.profiles_generated t ≤ m'.profiles_generated t)
  unfolding collect_and_upload_profile fetch upload_to_s3
  collect-generated = ground (arith, eq_refl t)

  -- The counts of other types stay.
  pub collect-generated_other :
      (l : String)
      → (l == t) ≡ false
      → (collect_and_upload_profile w c t m).metrics.profiles_generated l ≡ m.profiles_generated l
  unfolding collect_and_upload_profile fetch upload_to_s3
  collect-generated_other l h = ground arith

  -- The counter of uploads moves exactly when the collection reports no error, or none but that of
  -- removing the directory.
  pub collect-uploaded :
      let r = collect_and_upload_profile w c t m in
      r.metrics.profiles_uploaded ≡ m.profiles_uploaded + (if is_stored r.error then 1 else 0)
  unfolding collect_and_upload_profile fetch upload_to_s3
  collect-uploaded = ground arith
