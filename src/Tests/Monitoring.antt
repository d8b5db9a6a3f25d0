-- ===== src/Tests/Monitoring.antt =====
-- The sidecar's loop and its collections on concrete answers.
use pprof_operator.Prelude.{ℕ, ◌≡◌, ◌↔◌, refl, false, none, List, [], ◌∷◌, String, length, ok}
use pprof_operator.Prelude.Int.{ℤ, wrap64, ◌*ℤ◌}
use pprof_operator.Text.Decimal.{atoi}
use pprof_operator.Sidecar.Metrics.{no_metrics}
use pprof_operator.Sidecar.Kubelet.{
  PodStats, container_limits, percentages, KubeletConfig, get_kubelet_metrics,
}
use pprof_operator.Prelude.Int.{is_zero}
use pprof_operator.Sidecar.Monitor.{
  Event, tick, done, State, on_tick, on_usage, profile_cpu, profile_heap, is_due, loop,
}
use pprof_operator.Sidecar.Monitor.Cooldown.{times, IsSpaced, loop-IsSpaced}
use pprof_operator.Sidecar.Monitor.Schedule.{
  spaced_out, exceeding, cpu_over, memory_over, loop-cpu_times, loop-heap_times,
}
use pprof_operator.Sidecar.Kubelet.Usage.{IsUsage, get_kubelet_metrics_iff}
use pprof_operator.Tests.Data.{pod}
use pprof_operator.Tests.Answers.{config, fixed_point, quantities, answers, tick_at}

abbrev start : State ℕ
start = record { last_cpu_time = none; metrics = no_metrics }

-- Ticks at 0, 100 and 400 seconds; the last one comes after the end.
abbrev events : List Event
events =
    tick (tick_at 0)
    ∷ tick (tick_at 100_000_000_000)
    ∷ tick (tick_at 400_000_000_000)
    ∷ done
    ∷ tick (tick_at 900_000_000_000)
    ∷ []

-- Two of the CPU's ticks are due, the memory exceeds its threshold in all three.
loop-calls :
    (times "profile" (loop fixed_point quantities config events start).1 ≡ 0 ∷ 400_000_000_000 ∷ [])
    × (length (times "heap" (loop fixed_point quantities config events start).1) ≡ 3)
unfolding loop on_tick get_kubelet_metrics atoi on_usage profile_cpu is_due percentages wrap64 ◌*ℤ◌
    profile_heap
loop-calls = (refl, refl)

loop-IsSpaced_example :
    IsSpaced none (times "profile" (loop fixed_point quantities config events start).1)
loop-IsSpaced_example = loop-IsSpaced fixed_point quantities config events start

abbrev kubelet_config : KubeletConfig
kubelet_config = record { namespace = "apps"; pod_name = "pod-1"; target_container = "app" }

abbrev stats_of : String → String → PodStats
stats_of namespace container = record {
  name = "pod-1";
  namespace = namespace;
  uid = "4f2a";
  containers = record { name = container; usage_nano_cores = 1; working_set_bytes = 2 } ∷ [];
}

abbrev all_stats : List PodStats
all_stats = stats_of "other" "app" ∷ stats_of "apps" "db" ∷ stats_of "apps" "app" ∷ []

get_kubelet_metrics-reads :
    get_kubelet_metrics fixed_point quantities kubelet_config answers ≡ ok (90_000, 75_000)
unfolding get_kubelet_metrics atoi percentages wrap64 ◌*ℤ◌
get_kubelet_metrics-reads = refl

abbrev limits : ℤ × ℤ
limits = container_limits quantities "app" pod.containers

cpu_limited : is_zero limits.0 ≡ false
unfolding container_limits atoi
cpu_limited = refl

memory_limited : is_zero limits.1 ≡ false
unfolding container_limits atoi
memory_limited = refl

loop-cpu_times_example :
    times "profile" (loop fixed_point quantities config events start).1
    ≡ spaced_out none
        (exceeding fixed_point quantities config (cpu_over fixed_point quantities config) events)
loop-cpu_times_example = loop-cpu_times fixed_point quantities config events start

loop-heap_times_example :
    times "heap" (loop fixed_point quantities config events start).1
    ≡ exceeding fixed_point quantities config (memory_over fixed_point quantities config) events
loop-heap_times_example = loop-heap_times fixed_point quantities config events start

get_kubelet_metrics_iff_example :
    (get_kubelet_metrics fixed_point quantities kubelet_config answers ≡ ok (90_000, 75_000))
    ↔ IsUsage fixed_point quantities kubelet_config answers (90_000, 75_000)
get_kubelet_metrics_iff_example =
    get_kubelet_metrics_iff fixed_point quantities kubelet_config answers (90_000, 75_000)
