-- ===== src/Sidecar/Monitor/Cooldown.antt =====
-- When profiles are collected: CPU profiles at most once in five minutes, heap profiles at every
-- tick that exceeds the threshold.
use pprof_operator.Prelude.{
  ℕ, ◌+◌, ◌<◌, ◌≡◌, refl, Bool, true, false, ◌&&◌, Option, none, some, List, [], ◌∷◌, ◌++◌,
  append-nil, String, ◌==◌, arith, Result-cases, Bool-cases, inl, inr, if◌then◌else◌,
}
use pprof_operator.Sidecar.Config.{Config}
use pprof_operator.Sidecar.Monitor.{
  Tick, Event, done, tick, cooldown, Call, is_due, State, reading, cpu_exceeded, memory_exceeded,
  record_usage, profile_cpu, profile_heap, on_usage, on_tick, loop,
}
use pprof_operator.Sidecar.Kubelet.{Floats, Quantities}

-- The times of the collections of one type.
abbrev pub times : String → List Call → List ℕ
times k [] = []
times k (c ∷ cs) = if c.profile_type == k then c.at ∷ times k cs else times k cs

pub times-append : (k : String) (cs ds : List Call) → times k (cs ++ ds) ≡ times k cs ++ times k ds
times-append k [] ds = refl
times-append k (c ∷ cs) ds = ground (arith, times-append k cs ds)

-- Each time lies more than the cooldown behind the one before it.
abbrev pub IsSpaced : Option ℕ → List ℕ → Type 0
IsSpaced last [] = Unit
IsSpaced none (t ∷ ts) = IsSpaced (some t) ts
IsSpaced (some l) (t ∷ ts) = (l + cooldown < t) × IsSpaced (some t) ts

-- What one tick does to the CPU schedule: nothing, or one collection that was due.
data CpuStep (last last' : Option ℕ) (now : ℕ) (ts : List ℕ) : Type 0 where
  quiet : last' ≡ last → ts ≡ [] → CpuStep last last' now ts
  fires : is_due last now ≡ true → last' ≡ some now → ts ≡ now ∷ [] → CpuStep last last' now ts

-- A schedule goes on behind a step.
CpuStep-IsSpaced :
    {last last' : Option ℕ} {now : ℕ} {ts : List ℕ} (rest : List ℕ)
    → CpuStep last last' now ts
    → IsSpaced last' rest
    → IsSpaced last (ts ++ rest)
unfolding is_due
CpuStep-IsSpaced rest (quiet e n) h = rw n (rw e at h)
CpuStep-IsSpaced {last = none} rest (fires d e n) h = rw n (rw e at h)
CpuStep-IsSpaced {last = some l} rest (fires d e n) h = rw n (ground arith, rw e at h)

module _ (fl : Floats) (q : Quantities) (c : Config) where
  open fl use {F}

  profile_cpu-CpuStep :
      (exceeded : Bool) (t : Tick) (s : State F)
      → let r = profile_cpu fl q c exceeded t s in
        CpuStep s.last_cpu_time r.0.last_cpu_time t.now (times "profile" r.1)
  unfolding profile_cpu
  profile_cpu-CpuStep exceeded t s = elim (Bool-cases (is_due s.last_cpu_time t.now && exceeded)) [
    | inl y ↦ rw (y, profile_cpu) (fires (ground arith) refl refl)
    | inr n ↦ rw (n, profile_cpu) (quiet refl refl)
  ]

  profile_heap-keeps :
      (exceeded : Bool) (t : Tick) (s : State F)
      → let r = profile_heap fl q c exceeded t s in
        (r.0.last_cpu_time ≡ s.last_cpu_time)
        × (times "profile" r.1 ≡ [])
        × (times "heap" r.1 ≡ (if exceeded then t.now ∷ [] else []))
  unfolding profile_heap
  profile_heap-keeps true t s = (refl, refl, refl)
  profile_heap-keeps false t s = (refl, refl, refl)

  on_usage-CpuStep :
      (cpu memory : F) (t : Tick) (s : State F)
      → let r = on_usage fl q c cpu memory t s in
        CpuStep s.last_cpu_time r.0.last_cpu_time t.now (times "profile" r.1)
  unfolding on_usage
  on_usage-CpuStep cpu memory t s =
      let s₁ : State F = record s { metrics = record_usage fl q c cpu memory s.metrics } in
      let r = profile_cpu fl q c (cpu_exceeded fl q c cpu) t s₁ in
      let keeps = profile_heap-keeps (memory_exceeded fl q c memory) t r.0 in
      rw (times-append, keeps.1, append-nil)
        (rw (keeps.0) (profile_cpu-CpuStep (cpu_exceeded fl q c cpu) t s₁))

  on_tick-CpuStep :
      (t : Tick) (s : State F)
      → let r = on_tick fl q c t s in
        CpuStep s.last_cpu_time r.0.last_cpu_time t.now (times "profile" r.1)
  unfolding on_tick
  on_tick-CpuStep t s = elim (Result-cases (reading fl q c t)) [
    | inl ((cpu, memory), e) ↦ rw (e, on_tick) (on_usage-CpuStep cpu memory t s)
    | inr (e, failed) ↦ rw (failed, on_tick) (quiet refl refl)
  ]

  -- In every run of the loop, whatever is measured and whatever fails, each CPU profile is started
  -- more than five minutes after the one before it, and after the last one of the state.
  pub loop-IsSpaced :
      (es : List Event) (s : State F)
      → IsSpaced s.last_cpu_time (times "profile" (loop fl q c es s).1)
  unfolding loop
  loop-IsSpaced [] s = tt
  loop-IsSpaced (done ∷ es) s = tt
  loop-IsSpaced (tick t ∷ es) s =
      let r = on_tick fl q c t s in
      rw times-append (CpuStep-IsSpaced _ (on_tick-CpuStep t s) (loop-IsSpaced es r.0))
