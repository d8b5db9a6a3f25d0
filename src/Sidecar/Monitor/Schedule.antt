-- ===== src/Sidecar/Monitor/Schedule.antt =====
-- The exact schedule: which of the ticks start a profile.
use pprof_operator.Prelude.{
  ℕ, ◌+◌, ◌≡◌, refl, ◌∙◌, Bool, true, false, ◌&&◌, Option, none, some, List, [], ◌∷◌, ◌++◌,
  append-nil, ltb, Result, ok, err, Result-cases, Bool-cases, inl, inr, if◌then◌else◌,
}
use pprof_operator.Sidecar.Config.{Config}
use pprof_operator.Sidecar.Monitor.{
  Tick, Event, done, tick, cooldown, is_due, State, reading, cpu_exceeded, memory_exceeded,
  record_usage, profile_cpu, profile_heap, on_usage, on_tick, loop,
}
use pprof_operator.Sidecar.Monitor.Cooldown.{times, times-append}
use pprof_operator.Sidecar.Kubelet.{Floats, Quantities, KubeletError}

-- The time is more than the cooldown behind the last one kept, if there is one.
abbrev is_late : Option ℕ → ℕ → Bool
is_late none t = true
is_late (some l) t = ltb (l + cooldown) t

is_due-eq-is_late : (last : Option ℕ) (t : ℕ) → is_due last t ≡ is_late last t
unfolding is_due
is_due-eq-is_late none t = refl
is_due-eq-is_late (some l) t = refl

-- Of a sequence of times those that are kept, each as soon as the cooldown allows it.
abbrev pub spaced_out : Option ℕ → List ℕ → List ℕ
spaced_out last [] = []
spaced_out last (t ∷ ts) = if is_late last t then t ∷ spaced_out (some t) ts else spaced_out last ts

abbrev pub when : Bool → ℕ → List ℕ
when b t = if b then t ∷ [] else []

module _ (fl : Floats) (q : Quantities) (c : Config) where
  open fl use {F}

  abbrev pub usage_over : (F × F → Bool) → Result KubeletError (F × F) → Bool
  usage_over over (err e) = false
  usage_over over (ok usage) = over usage

  -- The times of the ticks up to the end whose reading succeeded and passes the test.
  abbrev pub exceeding : (F × F → Bool) → List Event → List ℕ
  exceeding over [] = []
  exceeding over (done ∷ es) = []
  exceeding over (tick t ∷ es) =
      when (usage_over over (reading fl q c t)) t.now ++ exceeding over es

  abbrev pub cpu_over : F × F → Bool
  cpu_over usage = cpu_exceeded fl q c usage.0

  abbrev pub memory_over : F × F → Bool
  memory_over usage = memory_exceeded fl q c usage.1

  profile_cpu-times :
      (e : Bool) (t : Tick) (s : State F) (rest : List ℕ)
      → let r = profile_cpu fl q c e t s in
        times "profile" r.1 ++ spaced_out r.0.last_cpu_time rest
        ≡ spaced_out s.last_cpu_time (when e t.now ++ rest)
  unfolding profile_cpu
  profile_cpu-times true t s rest = elim (Bool-cases (is_late s.last_cpu_time t.now)) [
    | inl late ↦ rw (is_due-eq-is_late s.last_cpu_time t.now ∙ late, profile_cpu, late) refl
    | inr early ↦ rw (is_due-eq-is_late s.last_cpu_time t.now ∙ early, profile_cpu, early) refl
  ]
  profile_cpu-times false t s rest = elim (Bool-cases (is_late s.last_cpu_time t.now)) [
    | inl late ↦ rw (is_due-eq-is_late s.last_cpu_time t.now ∙ late, profile_cpu) refl
    | inr early ↦ rw (is_due-eq-is_late s.last_cpu_time t.now ∙ early, profile_cpu) refl
  ]

  profile_cpu-heap :
      (e : Bool) (t : Tick) (s : State F) → times "heap" (profile_cpu fl q c e t s).1 ≡ []
  unfolding profile_cpu
  profile_cpu-heap e t s = elim (Bool-cases (is_due s.last_cpu_time t.now && e)) [
    | inl fires ↦ rw (fires, profile_cpu) refl
    | inr quiet ↦ rw (quiet, profile_cpu) refl
  ]

  profile_heap-times :
      (e : Bool) (t : Tick) (s : State F)
      → let r = profile_heap fl q c e t s in
        (r.0.last_cpu_time ≡ s.last_cpu_time)
        × (times "profile" r.1 ≡ [])
        × (times "heap" r.1 ≡ when e t.now)
  unfolding profile_heap
  profile_heap-times true t s = (refl, refl, refl)
  profile_heap-times false t s = (refl, refl, refl)

  on_usage-times :
      (cpu memory : F) (t : Tick) (s : State F) (rest : List ℕ)
      → let r = on_usage fl q c cpu memory t s in
        (times "profile" r.1 ++ spaced_out r.0.last_cpu_time rest
          ≡ spaced_out s.last_cpu_time (when (cpu_exceeded fl q c cpu) t.now ++ rest))
        × (times "heap" r.1 ≡ when (memory_exceeded fl q c memory) t.now)
  unfolding on_usage
  on_usage-times cpu memory t s rest =
      let measured : State F = record s { metrics = record_usage fl q c cpu memory s.metrics } in
      let r = profile_cpu fl q c (cpu_exceeded fl q c cpu) t measured in
      let heap = profile_heap-times (memory_exceeded fl q c memory) t r.0 in
      (
        rw (times-append, heap.1, append-nil, heap.0)
            (profile_cpu-times (cpu_exceeded fl q c cpu) t measured rest),
        rw (times-append, profile_cpu-heap (cpu_exceeded fl q c cpu) t measured) heap.2,
      )

  pub on_tick-times :
      (t : Tick) (s : State F) (rest : List ℕ)
      → let r = on_tick fl q c t s in
        (times "profile" r.1 ++ spaced_out r.0.last_cpu_time rest
          ≡ spaced_out s.last_cpu_time
              (when (usage_over cpu_over (reading fl q c t)) t.now ++ rest))
        × (times "heap" r.1 ≡ when (usage_over memory_over (reading fl q c t)) t.now)
  unfolding on_tick
  on_tick-times t s rest = elim (Result-cases (reading fl q c t)) [
    | inl ((cpu, memory), e) ↦ rw (e, on_tick) (on_usage-times cpu memory t s rest)
    | inr (e, failed) ↦ rw (failed, on_tick) (refl, refl)
  ]

  -- In every run a CPU profile is started at each tick that exceeds the threshold, up to the end,
  -- unless the last one that was started, in the run or before it, lies at most five minutes back.
  pub loop-cpu_times :
      (es : List Event) (s : State F)
      → times "profile" (loop fl q c es s).1 ≡ spaced_out s.last_cpu_time (exceeding cpu_over es)
  unfolding loop
  loop-cpu_times [] s = refl
  loop-cpu_times (done ∷ es) s = refl
  loop-cpu_times (tick t ∷ es) s =
      let r = on_tick fl q c t s in
      rw (times-append, loop-cpu_times es r.0) (on_tick-times t s (exceeding cpu_over es)).0

  -- In every run a heap profile is started at each tick that exceeds the threshold, up to the end,
  -- however short the time since the one before it.
  pub loop-heap_times :
      (es : List Event) (s : State F) → times "heap" (loop fl q c es s).1 ≡ exceeding memory_over es
  unfolding loop
  loop-heap_times [] s = refl
  loop-heap_times (done ∷ es) s = refl
  loop-heap_times (tick t ∷ es) s =
      let r = on_tick fl q c t s in
      rw (times-append, loop-heap_times es r.0, (on_tick-times t s []).1) refl
