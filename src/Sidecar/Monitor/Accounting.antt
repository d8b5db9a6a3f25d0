-- ===== src/Sidecar/Monitor/Accounting.antt =====
-- The sidecar's metrics against the collections that the loop starts.
use pprof_operator.Prelude.{
  ◌+◌, ◌≤◌, ◌≡◌, refl, Bool, true, false, List, [], ◌∷◌, append-nil, arith, length, length-append,
  Result-cases, Bool-cases, inl, inr, if◌then◌else◌, ◌&&◌,
}
use pprof_operator.Sidecar.Config.{Config}
use pprof_operator.Sidecar.Metrics.{Metrics}
use pprof_operator.Sidecar.Collect.{World, collect_and_upload_profile}
use pprof_operator.Sidecar.Collect.Counting.{
  collect-threshold_exceeded, collect-generated, collect-generated_other,
}
use pprof_operator.Sidecar.Monitor.{
  Tick, Event, done, tick, Call, is_due, State, reading, cpu_exceeded, memory_exceeded,
  record_usage, profile_cpu, profile_heap, on_usage, on_tick, loop,
}
use pprof_operator.Sidecar.Monitor.Cooldown.{times, times-append}
use pprof_operator.Sidecar.Kubelet.{Floats, Quantities}

-- No profile counts as uploaded, or as failed to upload, that does not count as generated.
abbrev pub IsAccounted : {F : Type 0} → Metrics F → Type 0
IsAccounted m =
    m.profiles_uploaded + m.profile_upload_errors
    ≤ m.profiles_generated "profile" + m.profiles_generated "heap"

module _ {F : Type 0} (w : World) (c : Config) (m : Metrics F) where
  collect_cpu-IsAccounted :
      IsAccounted m → IsAccounted (collect_and_upload_profile w c "profile" m).metrics
  collect_cpu-IsAccounted h = omega (
    arith,
    h,
    collect-generated w c "profile" m,
    collect-generated_other w c "profile" m "heap" refl,
  )

  collect_heap-IsAccounted :
      IsAccounted m → IsAccounted (collect_and_upload_profile w c "heap" m).metrics
  collect_heap-IsAccounted h = omega (
    arith,
    h,
    collect-generated w c "heap" m,
    collect-generated_other w c "heap" m "profile" refl,
  )

module _ (fl : Floats) (q : Quantities) (c : Config) where
  open fl use {F}

  -- What a step of the loop from `s` to `s'`, with the calls `cs`, keeps between counters and
  -- calls.
  record Keeps (s s' : State F) (cs : List Call) : Type 0 where
    accounted : IsAccounted s.metrics → IsAccounted s'.metrics
    heap :
        s'.metrics.threshold_exceeded "memory"
        ≡ s.metrics.threshold_exceeded "memory" + length (times "heap" cs)
    cpu :
        s.metrics.threshold_exceeded "cpu" + length (times "profile" cs)
        ≤ s'.metrics.threshold_exceeded "cpu"

  -- The two parts of a step, with the counters that the thresholds have moved before.
  cpu_part :
      (e : Bool) (t : Tick) (s : State F)
      → let r = profile_cpu fl q c e t s in
        (IsAccounted s.metrics → IsAccounted r.0.metrics)
        × (r.0.metrics.threshold_exceeded ≡ s.metrics.threshold_exceeded)
        × (times "heap" r.1 ≡ [])
        × (length (times "profile" r.1) ≤ (if e then 1 else 0))
  unfolding profile_cpu
  cpu_part e t s = elim (Bool-cases (is_due s.last_cpu_time t.now && e)) [
    | inl y ↦
        rw (y, profile_cpu)
          (
            collect_cpu-IsAccounted t.cpu_world c s.metrics,
            collect-threshold_exceeded t.cpu_world c "profile" s.metrics,
            refl,
            ground arith,
          )
    | inr n ↦ rw (n, profile_cpu) (λ h. h, refl, refl, omega arith)
  ]

  heap_part :
      (e : Bool) (t : Tick) (s : State F)
      → let r = profile_heap fl q c e t s in
        (IsAccounted s.metrics → IsAccounted r.0.metrics)
        × (r.0.metrics.threshold_exceeded ≡ s.metrics.threshold_exceeded)
        × (times "profile" r.1 ≡ [])
        × (length (times "heap" r.1) ≡ (if e then 1 else 0))
  unfolding profile_heap
  heap_part true t s = (
    collect_heap-IsAccounted t.heap_world c s.metrics,
    collect-threshold_exceeded t.heap_world c "heap" s.metrics,
    refl,
    refl,
  )
  heap_part false t s = (λ h. h, refl, refl, refl)

  usage_part :
      (cpu memory : F) (m : Metrics F)
      → let f = (record_usage fl q c cpu memory m).threshold_exceeded in
        (f "memory"
          ≡ m.threshold_exceeded "memory" + (if memory_exceeded fl q c memory then 1 else 0))
        × (f "cpu" ≡ m.threshold_exceeded "cpu" + (if cpu_exceeded fl q c cpu then 1 else 0))
  unfolding record_usage
  usage_part cpu memory m = (ground arith, ground arith)

  nothing : (s : State F) → Keeps s s []
  nothing s = record { accounted = λ h. h; heap = omega arith; cpu = omega arith }

  on_usage-Keeps :
      (cpu memory : F) (t : Tick) (s : State F)
      → let r = on_usage fl q c cpu memory t s in Keeps s r.0 r.1
  unfolding on_usage record_usage
  on_usage-Keeps cpu memory t s =
      let s₁ : State F = record s { metrics = record_usage fl q c cpu memory s.metrics } in
      let r = profile_cpu fl q c (cpu_exceeded fl q c cpu) t s₁ in
      let one = cpu_part (cpu_exceeded fl q c cpu) t s₁ in
      let two = heap_part (memory_exceeded fl q c memory) t r.0 in
      let used = usage_part cpu memory s.metrics in
      record {
        accounted = λ h. two.0 (one.0 h);
        heap = rw (times-append, one.2, two.1, one.1) (omega (arith, two.3, used.0));
        cpu = rw (times-append, two.2, append-nil, two.1, one.1) (omega (arith, one.3, used.1));
      }

  on_tick-Keeps : (t : Tick) (s : State F) → let r = on_tick fl q c t s in Keeps s r.0 r.1
  unfolding on_tick
  on_tick-Keeps t s = elim (Result-cases (reading fl q c t)) [
    | inl ((cpu, memory), e) ↦ rw (e, on_tick) (on_usage-Keeps cpu memory t s)
    | inr (e, failed) ↦ rw (failed, on_tick) (nothing s)
  ]

  loop-Keeps : (es : List Event) (s : State F) → let r = loop fl q c es s in Keeps s r.0 r.1
  unfolding loop
  loop-Keeps [] s = nothing s
  loop-Keeps (done ∷ es) s = nothing s
  loop-Keeps (tick t ∷ es) s =
      let r = on_tick fl q c t s in
      let now = on_tick-Keeps t s in
      let later = loop-Keeps es r.0 in
      record {
        accounted = λ h. later.accounted (now.accounted h);
        heap = rw (times-append, length-append) (omega (arith, now.heap, later.heap));
        cpu = rw (times-append, length-append) (omega (arith, now.cpu, later.cpu));
      }

  -- Every run keeps the account: what counts as uploaded or as failed to upload, taken together, is
  -- at most what counts as generated.
  pub loop-IsAccounted :
      (es : List Event) (s : State F)
      → IsAccounted s.metrics
      → IsAccounted (loop fl q c es s).0.metrics
  loop-IsAccounted es s = (loop-Keeps es s).accounted

  -- In every run the counter of exceeded memory thresholds grows by the number of heap profiles
  -- that are started: there is one for each tick that exceeds the threshold, with no cooldown.
  pub loop-heap_count :
      (es : List Event) (s : State F)
      → let r = loop fl q c es s in
        r.0.metrics.threshold_exceeded "memory"
        ≡ s.metrics.threshold_exceeded "memory" + length (times "heap" r.1)
  loop-heap_count es s = (loop-Keeps es s).heap

  -- In every run at most as many CPU profiles are started as the counter of exceeded CPU thresholds
  -- grows by.
  pub loop-cpu_count :
      (es : List Event) (s : State F)
      → let r = loop fl q c es s in
        s.metrics.threshold_exceeded "cpu" + length (times "profile" r.1)
        ≤ r.0.metrics.threshold_exceeded "cpu"
  loop-cpu_count es s = (loop-Keeps es s).cpu
