-- ===== src/Sidecar/Monitor/Unlimited.antt =====
-- What the loop does where no limit is known: the division by 0 in
-- sidecar/pkg/kubelet/metrics.go and the comparison in sidecar/cmd/main.go.
use pprof_operator.Prelude.{
  ℕ, zero, suc, ◌≡◌, refl, ◌∙◌, ap, true, false, none, some, lookup, ltb, ok, [], arith,
}
use pprof_operator.Prelude.Int.{ℤ, pos}
use pprof_operator.Kube.{ResourceList}
use pprof_operator.Sidecar.Config.{Config}
use pprof_operator.Sidecar.Kubelet.{
  Floats, Quantities, ContainerStats, container_limits, effective_limits, percent, percentages,
}
use pprof_operator.Sidecar.Kubelet.Reading.{IsReading, get_kubelet_metrics_ok_iff}
use pprof_operator.Sidecar.Monitor.{Tick, State, kubelet_config, memory_exceeded, on_tick}
use pprof_operator.Sidecar.Monitor.Cooldown.{times}
use pprof_operator.Sidecar.Monitor.Schedule.{when, on_tick-times}

-- The values of IEEE 754 that a division by 0 gives.
pub record HasInfinity (fl : Floats) : Type 0 where
  pub inf : fl.F
  pub nan : fl.F
  pub div_zero : (n : ℕ) → fl.div (fl.of_int (pos (suc n))) (fl.of_int (pos 0)) ≡ inf
  pub zero_div_zero : fl.div (fl.of_int (pos 0)) (fl.of_int (pos 0)) ≡ nan
  pub inf_mul : fl.mul inf (fl.of_int (pos 100)) ≡ inf
  pub nan_mul : fl.mul nan (fl.of_int (pos 100)) ≡ nan
  pub inf_ge : (n : ℤ) → fl.ge inf (fl.of_int n) ≡ true
  pub nan_ge : (n : ℤ) → fl.ge nan (fl.of_int n) ≡ false

effective_limits-unlimited :
    (q : Quantities) (own limits : ℤ × ℤ) (capacity : ResourceList)
    → own.1 ≡ pos 0
    → lookup "memory" capacity ≡ none
    → effective_limits q own (some capacity) ≡ ok limits
    → limits.1 ≡ pos 0
unfolding effective_limits
effective_limits-unlimited q (cpu, memory) limits capacity e unknown h = ground arith

module _ (fl : Floats) (q : Quantities) (c : Config) (laws : HasInfinity fl) where
  open fl use {F}

  -- The product and the comparison, on a quotient that is known.
  through :
      {a b d : F}
      → a ≡ b
      → fl.mul b (fl.of_int (pos 100)) ≡ d
      → fl.ge (fl.mul a (fl.of_int (pos 100))) (fl.of_int c.memory_threshold)
        ≡ fl.ge d (fl.of_int c.memory_threshold)
  through e h = rw e (rw h refl)

  percent_of_zero : (n : ℕ) → memory_exceeded fl q c (percent fl n (pos 0)) ≡ ltb 0 n
  percent_of_zero zero = through laws.zero_div_zero laws.nan_mul ∙ laws.nan_ge c.memory_threshold
  percent_of_zero (suc n) =
      through (laws.div_zero n) laws.inf_mul ∙ laws.inf_ge c.memory_threshold ∙ ground arith

  exceeded :
      (s : ContainerStats) (limits : ℤ × ℤ)
      → limits.1 ≡ pos 0
      → memory_exceeded fl q c (percentages fl s limits).1 ≡ ltb 0 s.working_set_bytes
  unfolding percentages
  exceeded s (cpu, memory) e = rw e (percent_of_zero s.working_set_bytes)

  -- Where a number divided by 0 is an infinity above every threshold, and 0 divided by 0 is above
  -- none: if the target container has no memory limit and the node states no capacity of memory, a
  -- tick that reads starts a heap profile exactly if any memory is used, whatever the threshold.
  pub unlimited-heap :
      (t : Tick) (s : State F) (r : F × F) (capacity : ResourceList)
      (h : IsReading fl q (kubelet_config fl q c) t.answers r)
      → (container_limits q c.target_container h.pod.containers).1 ≡ pos 0
      → t.answers.node_capacity h.pod.node_name ≡ some capacity
      → lookup "memory" capacity ≡ none
      → times "heap" (on_tick fl q c t s).1 ≡ when (ltb 0 h.container.working_set_bytes) t.now
  unlimited-heap t s r capacity h none_set stated unknown =
      let reads = (get_kubelet_metrics_ok_iff fl q (kubelet_config fl q c) t.answers r).1 h in
      let limit : h.limits.1 ≡ pos 0 =
        effective_limits-unlimited q (container_limits q c.target_container h.pod.containers)
          h.limits capacity none_set unknown (rw (← stated) h.limited) in
      (on_tick-times fl q c t s []).1
      ∙ rw reads (
          ap (λ b. when b t.now)
            (ap (λ (v : F × F). memory_exceeded fl q c v.1) h.computed
              ∙ exceeded h.container h.limits limit))
