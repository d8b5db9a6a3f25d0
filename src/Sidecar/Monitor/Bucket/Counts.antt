-- ===== src/Sidecar/Monitor/Bucket/Counts.antt =====
-- The counter of uploads, against what a run stores.
use pprof_operator.Prelude.{
  ◌+◌, ◌≡◌, refl, sym, Bool, true, false, List, [], ◌∷◌, ◌++◌, append-nil, append_assoc, arith,
  length, length-append, Result-cases, Bool-cases, inl, inr, ◌&&◌, String,
}
use pprof_operator.Sidecar.Config.{Config}
use pprof_operator.Sidecar.Metrics.{Metrics}
use pprof_operator.Sidecar.Storage.{upload_to_s3}
use pprof_operator.Sidecar.Collect.{World, fetch, collect_and_upload_profile}
use pprof_operator.Sidecar.Kubelet.{Floats, Quantities}
use pprof_operator.Sidecar.Monitor.{
  Tick, Event, done, tick, Call, is_due, State, reading, cpu_exceeded, memory_exceeded,
  record_usage, profile_cpu, profile_heap, on_usage, on_tick, loop,
}
use pprof_operator.Sidecar.Monitor.Bucket.{world_of, stored_by, stored_calls, stored}

module _ (fl : Floats) (q : Quantities) (c : Config) where
  open fl use {F}

  collect-counts :
      (w : World) (profile_type : String) (m : Metrics F)
      → (collect_and_upload_profile w c profile_type m).metrics.profiles_uploaded
        ≡ m.profiles_uploaded + length (stored_by fl q c w profile_type)
  unfolding collect_and_upload_profile fetch upload_to_s3
  collect-counts w profile_type m = ground arith

  stored_calls-append :
      (t : Tick) (ks ls : List Call)
      → stored_calls fl q c t (ks ++ ls) ≡ stored_calls fl q c t ks ++ stored_calls fl q c t ls
  stored_calls-append t [] ls = refl
  stored_calls-append t (k ∷ ks) ls =
      rw (stored_calls-append t ks ls)
        (sym (append_assoc (stored_by fl q c (world_of t k.profile_type) k.profile_type) _ _))

  -- Both parts of a tick.
  Counts : Tick → State F → State F × List Call → Type 0
  Counts t s r =
      r.0.metrics.profiles_uploaded
      ≡ s.metrics.profiles_uploaded + length (stored_calls fl q c t r.1)

  profile_cpu-Counts : (e : Bool) (t : Tick) (s : State F) → Counts t s (profile_cpu fl q c e t s)
  unfolding Counts profile_cpu
  profile_cpu-Counts e t s = elim (Bool-cases (is_due s.last_cpu_time t.now && e)) [
    | inl y ↦ rw (y, profile_cpu, append-nil) (collect-counts t.cpu_world "profile" s.metrics)
    | inr n ↦ rw (n, profile_cpu) (omega arith)
  ]

  profile_heap-Counts : (e : Bool) (t : Tick) (s : State F) → Counts t s (profile_heap fl q c e t s)
  unfolding Counts profile_heap
  profile_heap-Counts true t s = rw append-nil (collect-counts t.heap_world "heap" s.metrics)
  profile_heap-Counts false t s = omega arith

  on_usage-Counts :
      (cpu memory : F) (t : Tick) (s : State F) → Counts t s (on_usage fl q c cpu memory t s)
  unfolding Counts on_usage record_usage
  on_usage-Counts cpu memory t s =
      let s₁ : State F = record s { metrics = record_usage fl q c cpu memory s.metrics } in
      let r = profile_cpu fl q c (cpu_exceeded fl q c cpu) t s₁ in
      let r' = profile_heap fl q c (memory_exceeded fl q c memory) t r.0 in
      rw (stored_calls-append t r.1 r'.1) (
        omega (
          arith,
          length-append (stored_calls fl q c t r.1) (stored_calls fl q c t r'.1),
          profile_cpu-Counts (cpu_exceeded fl q c cpu) t s₁,
          profile_heap-Counts (memory_exceeded fl q c memory) t r.0,
        ))

  on_tick-Counts : (t : Tick) (s : State F) → Counts t s (on_tick fl q c t s)
  unfolding Counts on_tick
  on_tick-Counts t s = elim (Result-cases (reading fl q c t)) [
    | inl ((cpu, memory), e) ↦ rw (e, on_tick) (on_usage-Counts cpu memory t s)
    | inr (e, failed) ↦ rw (failed, on_tick) (omega arith)
  ]

  pub loop-counts :
      (es : List Event) (s : State F)
      → (loop fl q c es s).0.metrics.profiles_uploaded
        ≡ s.metrics.profiles_uploaded + length (stored fl q c es s)
  unfolding loop stored Counts
  loop-counts [] s = omega arith
  loop-counts (done ∷ es) s = omega arith
  loop-counts (tick t ∷ es) s =
      let r = on_tick fl q c t s in
      omega (
        arith,
        length-append (stored_calls fl q c t r.1) (stored fl q c es r.0),
        on_tick-Counts t s,
        loop-counts es r.0,
      )
