-- ===== src/Sidecar/Monitor/Bucket/Uploads.antt =====
-- How many objects a run leaves in the bucket.
use mathlib.Core.List.{map}
use pprof_operator.Prelude.{
  ◌+◌, ◌≡◌, ◌≢◌, ◌↔◌, refl, Bool, true, false, List, [], ◌∷◌, arith, length, Result-cases,
  Bool-cases, inl, inr, ◌&&◌, String, ◌==◌, All, All-append,
}
use pprof_operator.Text.FilePath.Parts.{NoSlash, IsPart}
use pprof_operator.Sidecar.Config.{Config}
use pprof_operator.Sidecar.Collect.{World}
use pprof_operator.Sidecar.Collect.Key.{ProfileType, IsPlain, s3_key-injective}
use pprof_operator.Sidecar.Collect.Key as Key
use pprof_operator.Sidecar.Kubelet.{Floats, Quantities}
use pprof_operator.Sidecar.Monitor.{
  Tick, Event, done, tick, Call, is_due, State, reading, cpu_exceeded, memory_exceeded, profile_cpu,
  profile_heap, on_usage, on_tick, loop,
}
use pprof_operator.Sidecar.Monitor.Bucket.{
  Profile, objects, world_of, HasPlainTimes, key, is_stored, stored_by, stored_calls, stored,
}
use pprof_operator.Sidecar.Monitor.Bucket.Counts.{loop-counts}
use pprof_operator.Sidecar.Monitor.Bucket.Objects.{
  length-objects_iff, AreDistinct, IsNamed, keys_distinct_iff,
}

module _ (fl : Floats) (q : Quantities) (c : Config) where
  open fl use {F}

  abbrev IsTyped : Call → Type 0
  IsTyped k = ProfileType k.profile_type

  profile_cpu-IsTyped :
      (e : Bool) (t : Tick) (s : State F) → All IsTyped (profile_cpu fl q c e t s).1
  unfolding profile_cpu
  profile_cpu-IsTyped e t s = elim (Bool-cases (is_due s.last_cpu_time t.now && e)) [
    | inl y ↦ rw (y, profile_cpu) (Key.cpu refl, tt)
    | inr n ↦ rw (n, profile_cpu) tt
  ]

  profile_heap-IsTyped :
      (e : Bool) (t : Tick) (s : State F) → All IsTyped (profile_heap fl q c e t s).1
  unfolding profile_heap
  profile_heap-IsTyped true t s = (Key.heap refl, tt)
  profile_heap-IsTyped false t s = tt

  on_tick-IsTyped : (t : Tick) (s : State F) → All IsTyped (on_tick fl q c t s).1
  unfolding on_tick on_usage
  on_tick-IsTyped t s = elim (Result-cases (reading fl q c t)) [
    | inl ((cpu, memory), e) ↦
        rw (e, on_tick)
          (All-append IsTyped _ _ (profile_cpu-IsTyped (cpu_exceeded fl q c cpu) t _)
            (profile_heap-IsTyped (memory_exceeded fl q c memory) t _))
    | inr (e, failed) ↦ rw (failed, on_tick) tt
  ]

  world_of-NoSlash :
      (t : Tick) (profile_type : String)
      → NoSlash t.cpu_world.timestamp
      → NoSlash t.heap_world.timestamp
      → NoSlash (world_of t profile_type).timestamp
  world_of-NoSlash t profile_type h k = elim (Bool-cases (profile_type == "heap")) [
    | inl y ↦ rw y k
    | inr n ↦ rw n h
  ]

  stored_by-IsNamed :
      (w : World) (profile_type : String)
      → ProfileType profile_type
      → NoSlash w.timestamp
      → All IsNamed (stored_by fl q c w profile_type)
  stored_by-IsNamed w profile_type type time = elim (Bool-cases (is_stored fl q c w profile_type)) [
    | inl y ↦ rw y ((type, time), tt)
    | inr n ↦ rw n tt
  ]

  stored_calls-IsNamed :
      (t : Tick) (ks : List Call)
      → NoSlash t.cpu_world.timestamp
      → NoSlash t.heap_world.timestamp
      → All IsTyped ks
      → All IsNamed (stored_calls fl q c t ks)
  stored_calls-IsNamed t [] h k types = tt
  stored_calls-IsNamed t (l ∷ ls) h k (type, types) =
      All-append IsNamed _ _
        (stored_by-IsNamed (world_of t l.profile_type) l.profile_type type
          (world_of-NoSlash t l.profile_type h k))
        (stored_calls-IsNamed t ls h k types)

  stored-IsNamed :
      (es : List Event) (s : State F) → HasPlainTimes es → All IsNamed (stored fl q c es s)
  unfolding stored
  stored-IsNamed [] s h = tt
  stored-IsNamed (done ∷ es) s h = tt
  stored-IsNamed (tick t ∷ es) s ((h, k), hs) =
      All-append IsNamed _ _
        (stored_calls-IsNamed t (on_tick fl q c t s).1 h k (on_tick-IsTyped t s))
        (stored-IsNamed es (on_tick fl q c t s).0 hs)

  length-map : (ps : List Profile) → length (map (key fl q c) ps) ≡ length ps
  length-map [] = refl
  length-map (p ∷ ps) = omega (arith, length-map ps)

  -- A run of the loop with a path prefix that is not empty, for a pod whose name is a plain part of
  -- a path, and with no slash in the container's name and in the times, over a bucket that has none
  -- of its keys: the counter of uploads grows by the number of objects that the run leaves in the
  -- bucket exactly if no two of the profiles that S3 took have one type and one time. It grows by
  -- the number of those profiles in any case.
  pub loop-objects_iff :
      (es : List Event) (s : State F)
      → c.s3_path_prefix ≢ ""
      → IsPart c.pod_name
      → NoSlash c.target_container
      → HasPlainTimes es
      → ((loop fl q c es s).0.metrics.profiles_uploaded
          ≡ s.metrics.profiles_uploaded + length (stored fl q c es s))
        × (((loop fl q c es s).0.metrics.profiles_uploaded
              ≡ s.metrics.profiles_uploaded
                + length (objects (map (key fl q c) (stored fl q c es s))))
            ↔ AreDistinct (stored fl q c es s))
  loop-objects_iff es s set pod container plain =
      let ps = stored fl q c es s in
      let counted = loop-counts fl q c es s in
      let sizes = length-objects_iff (map (key fl q c) ps) in
      let apart = keys_distinct_iff fl q c set pod container ps (stored-IsNamed es s plain) in
      (
        counted,
        (
          λ e. apart.0 (sizes.0 (omega (arith, counted, e, length-map ps))),
          λ d. omega (arith, counted, sizes.1 (apart.1 d), length-map ps),
        ),
      )
