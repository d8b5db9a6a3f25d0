-- ===== src/Sidecar/Monitor.antt =====
-- The monitoring loop: `monitorResourceUsage` of sidecar/cmd/main.go. A run of the loop is the
-- sequence of events that its `select` receives; what the world answers while a tick is handled
-- comes with the tick.
pub mod Cooldown
pub mod Accounting
pub mod Schedule
pub mod Thresholds
pub mod Unlimited
pub mod System
pub mod Bucket
use pprof_operator.Prelude.{
  ℕ, ◌+◌, Bool, true, false, ◌&&◌, Option, none, some, List, [], ◌∷◌, ◌++◌, String, Result, ok, err,
  ltb, if◌then◌else◌,
}
use pprof_operator.Prelude.Int.{ℤ, pos, ltb_ℤ}
use pprof_operator.Sidecar.Config.{Config}
use pprof_operator.Sidecar.Metrics.{Metrics, inc, set_gauge}
use pprof_operator.Sidecar.Collect.{World, Collected, collect_and_upload_profile}
use pprof_operator.Sidecar.Kubelet.{
  Floats, Quantities, KubeletConfig, KubeletError, Answers, get_kubelet_metrics,
}

-- A tick: the answers to `GetKubeletMetrics`, the clock in nanoseconds, and the worlds of the two
-- collections that it may start.
pub record Tick : Type 0 where
  pub answers : Answers
  pub now : ℕ
  pub cpu_world : World
  pub heap_world : World

pub data Event : Type 0 where
  done : Event
  tick : Tick → Event

-- `time.Minute * 5`.
abbrev pub cooldown : ℕ
cooldown = 300_000_000_000

-- A collection that was started, with its profile type and the tick's clock.
pub record Call : Type 0 where
  pub profile_type : String
  pub at : ℕ

-- `lastCPUTime.IsZero() || now.Sub(lastCPUTime) > time.Minute*5`; `none` is the zero time.
unfoldable pub is_due : Option ℕ → ℕ → Bool
is_due none now = true
is_due (some last) now = ltb (last + cooldown) now

abbrev inc_if : Bool → String → (String → ℕ) → String → ℕ
inc_if b label f = if b then inc label f else f

pub record State (F : Type 0) : Type 0 where
  pub last_cpu_time : Option ℕ
  pub metrics : Metrics F

-- `time.NewTicker` panics on a period that is not positive.
pub data Run (F : Type 0) : Type 0 where
  panics : Run F
  runs : State F × List Call → Run F

module _ (fl : Floats) (q : Quantities) (c : Config) where
  open fl use {F, of_int, ge}

  abbrev pub kubelet_config : KubeletConfig
  kubelet_config = record {
    namespace = c.namespace;
    pod_name = c.pod_name;
    target_container = c.target_container;
  }

  -- What the tick reads: the percentages of CPU and memory.
  abbrev pub reading : Tick → Result KubeletError (F × F)
  reading t = get_kubelet_metrics fl q kubelet_config t.answers

  -- `cpuPercent >= float64(cpuThreshold)`, and the same for memory.
  abbrev pub cpu_exceeded : F → Bool
  cpu_exceeded v = ge v (of_int c.cpu_threshold)

  abbrev pub memory_exceeded : F → Bool
  memory_exceeded v = ge v (of_int c.memory_threshold)

  -- The gauges and the counters of exceeded thresholds.
  unfoldable pub record_usage : F → F → Metrics F → Metrics F
  record_usage cpu memory m = record m {
    resource_usage = set_gauge "memory" memory (set_gauge "cpu" cpu m.resource_usage);
    threshold_exceeded =
        inc_if (memory_exceeded memory) "memory"
          (inc_if (cpu_exceeded cpu) "cpu" m.threshold_exceeded);
  }

  -- The CPU profile: at most one in five minutes. A failed collection counts too.
  unfoldable pub profile_cpu : Bool → Tick → State F → State F × List Call
  profile_cpu exceeded t s =
      if is_due s.last_cpu_time t.now && exceeded
      then (
        record {
          last_cpu_time = some t.now;
          metrics = (collect_and_upload_profile t.cpu_world c "profile" s.metrics).metrics;
        },
        record { profile_type = "profile"; at = t.now } ∷ [],
      )
      else (s, [])

  -- The heap profile: at every tick that exceeds the threshold.
  unfoldable pub profile_heap : Bool → Tick → State F → State F × List Call
  profile_heap exceeded t s =
      if exceeded
      then (
        record s { metrics = (collect_and_upload_profile t.heap_world c "heap" s.metrics).metrics },
        record { profile_type = "heap"; at = t.now } ∷ [],
      )
      else (s, [])

  unfoldable pub on_usage : F → F → Tick → State F → State F × List Call
  unfolding record_usage
  on_usage cpu memory t s =
      let s₁ : State F = record s { metrics = record_usage cpu memory s.metrics } in
      let (s₂, calls) = profile_cpu (cpu_exceeded cpu) t s₁ in
      let (s₃, calls') = profile_heap (memory_exceeded memory) t s₂ in (s₃, calls ++ calls')

  -- One tick: an error skips it.
  unfoldable pub on_tick : Tick → State F → State F × List Call
  on_tick t s = elim (reading t) [ err e ↦ (s, []) | ok (cpu, memory) ↦ on_usage cpu memory t s ]

  -- The loop, until the context is done.
  unfoldable pub loop : List Event → State F → State F × List Call
  loop [] s = (s, [])
  loop (done ∷ es) s = (s, [])
  loop (tick t ∷ es) s =
      let (s', calls) = on_tick t s in let (s'', calls') = loop es s' in (s'', calls ++ calls')

  unfoldable pub monitor_resource_usage : Metrics F → List Event → Run F
  monitor_resource_usage m es =
      if ltb_ℤ (pos 0) c.monitoring_period
      then runs (loop es (record { last_cpu_time = none; metrics = m }))
      else panics
