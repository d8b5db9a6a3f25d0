-- ===== src/Contract/Period.antt =====
-- The monitoring period of the CRD, which has no lower bound, as the period of the sidecar's ticker.
use pprof_operator.Prelude.{
  ◌≡◌, ◌↔◌, ◌*◌, ◌∙◌, ap, true, false, Option, none, String, List, arith, inl, inr, ◌⊎◌,
}
use pprof_operator.Prelude.Int.{ℤ, pos, neg_part, pos_part, negsuc, ltb_ℤ, ◌*ℤ◌, ◌≤ℤ◌, InRange}
use pprof_operator.Api.{Profiler}
use pprof_operator.Kube.{Pod}
use pprof_operator.Webhook.Builder.{sidecar_env}
use pprof_operator.Contract.{Delivers}
use pprof_operator.Contract.Settings.{IsDeliverable, period_of, load_config-IsDelivered}
use pprof_operator.Sidecar.Config.{Config, Surroundings, config_of, second}
use pprof_operator.Sidecar.Metrics.{Metrics}
use pprof_operator.Sidecar.Kubelet.{Floats, Quantities}
use pprof_operator.Sidecar.Monitor.{Event, panics, runs, loop, monitor_resource_usage}
use pprof_operator.Prelude.{ℕ, refl}

monitor_of_nonpositive :
    (fl : Floats) (q : Quantities) (c : Config) (m : Metrics fl.F) (es : List Event)
    → ltb_ℤ (pos 0) c.monitoring_period ≡ false
    → monitor_resource_usage fl q c m es ≡ panics
unfolding monitor_resource_usage
monitor_of_nonpositive fl q c m es h = rw h refl

-- A period from a second to the seconds of the largest `int32`, in nanoseconds.
pub record IsPeriod (v : ℤ) : Type 0 where
  pub low : second ≤ℤ v
  pub high : v ≤ℤ pos (2147483647 * 1000000000)

negative_duration : (n : ℕ) → ltb_ℤ (pos 0) (period_of (negsuc n)) ≡ false
unfolding ◌*ℤ◌
negative_duration n = ground arith

-- A deliverable CRD with a negative period of 32 bits stops the sidecar, in a cluster that delivers
-- its environment and lets it reach the API server: the ticker panics before the first event.
negative_period-panics :
    (p : Profiler) (pod : Pod) (target : String) (secrets : String → String → Option String)
    (w : Surroundings) (fl : Floats) (q : Quantities) (m : Metrics fl.F) (es : List Event) (n : ℕ)
    → Delivers (sidecar_env p pod target) secrets w.getenv
    → IsDeliverable p target
    → w.in_cluster_config ≡ true
    → w.new_for_config ≡ true
    → p.spec.monitoring_period ≡ negsuc n
    → monitor_resource_usage fl q (config_of w) m es ≡ panics
negative_period-panics p pod target secrets w fl q m es n k d i c h =
    let period = (load_config-IsDelivered p pod target secrets w k d i c).1.period in
    monitor_of_nonpositive fl q (config_of w) m es
      (ap (λ v. ltb_ℤ (pos 0) v) (period ∙ ap period_of h) ∙ negative_duration n)

sign : (v : ℤ) → (pos 0 ≤ℤ v) ⊎ ((n : ℕ) × (v ≡ negsuc n))
sign (pos n) = inl (omega arith)
sign (negsuc n) = inr (n, refl)

period_of-IsPeriod : (v : ℤ) → pos 0 ≤ℤ v → InRange 31 v → IsPeriod (period_of v)
unfolding ◌*ℤ◌
period_of-IsPeriod (pos n) h r = record { low = ground arith; high = ground arith }
period_of-IsPeriod (negsuc n) h r = absurd (omega arith)

monitor_of_period :
    (fl : Floats) (q : Quantities) (c : Config) (m : Metrics fl.F) (es : List Event)
    → IsPeriod c.monitoring_period
    → monitor_resource_usage fl q c m es
      ≡ runs (loop fl q c es (record { last_cpu_time = none; metrics = m }))
unfolding monitor_resource_usage
monitor_of_period fl q c m es h = ground (arith, h.low)

module _ (p : Profiler) (pod : Pod) (target : String) (secrets : String → String → Option String)
    (w : Surroundings) (fl : Floats) (q : Quantities) (m : Metrics fl.F) (es : List Event)
    (k : Delivers (sidecar_env p pod target) secrets w.getenv) (d : IsDeliverable p target)
    (cluster : w.in_cluster_config ≡ true) (client : w.new_for_config ≡ true) where
  config_of-IsPeriod : pos 0 ≤ℤ p.spec.monitoring_period → IsPeriod (config_of w).monitoring_period
  config_of-IsPeriod h =
      rw ((load_config-IsDelivered p pod target secrets w k d cluster client).1.period)
        (period_of-IsPeriod p.spec.monitoring_period h d.period_int32)

  -- The sidecar of a deliverable CRD, in a cluster that delivers its environment and lets it reach
  -- the API server, whose ticker panics on a period that is not positive: it panics, before the
  -- first event, exactly if the CRD's period is negative. It monitors, with a period of the ticker
  -- from one second to the seconds of the largest `int32`, exactly if the CRD's is not negative.
  pub monitor-panics_iff :
      ((monitor_resource_usage fl q (config_of w) m es ≡ panics)
        ↔ (p.spec.monitoring_period ≤ℤ negsuc 0))
      × (((monitor_resource_usage fl q (config_of w) m es
              ≡ runs (loop fl q (config_of w) es (record { last_cpu_time = none; metrics = m })))
            × IsPeriod (config_of w).monitoring_period)
          ↔ (pos 0 ≤ℤ p.spec.monitoring_period))
  monitor-panics_iff = elim (sign p.spec.monitoring_period) [
    | inl from_zero ↦
        let run = monitor_of_period fl q (config_of w) m es (config_of-IsPeriod from_zero) in
        (
          (λ h. absurd (cc (run)), λ below. absurd (omega arith)),
          (λ _. from_zero, λ _. (run, config_of-IsPeriod from_zero)),
        )
    | inr (n, negative) ↦
        let stop =
          negative_period-panics p pod target secrets w fl q m es n k d cluster client negative in
        (
          (λ h. rw negative (omega arith), λ below. stop),
          (
            λ (run, range). absurd (cc (stop)),
            λ from_zero. absurd (omega (arith, ap neg_part negative, ap pos_part negative)),
          ),
        )
  ]
