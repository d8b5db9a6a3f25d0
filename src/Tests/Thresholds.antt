-- ===== src/Tests/Thresholds.antt =====
-- Two runs of the loop, one under more load and with a lower threshold.
use native.Mathlib.Nat.{le-div_iff_mul-le, le_trans, div-mul-le_self}
use mathlib.Core.List.{Sublistᴰ}
use pprof_operator.Prelude.{
  ℕ, ◌<◌, ◌≤◌, ◌*◌, ◌/◌, ◌≡◌, refl, true, none, some, [], ◌∷◌, arith, leb, ok,
}
use pprof_operator.Prelude.Int.{ℤ, pos, negsuc, ◌≤ℤ◌, wrap64, ◌*ℤ◌}
use pprof_operator.Text.Decimal.{atoi}
use pprof_operator.Sidecar.Metrics.{no_metrics}
use pprof_operator.Sidecar.Kubelet.{Answers, ContainerStats, percentages, get_kubelet_metrics}
use pprof_operator.Sidecar.Monitor.{tick, State, Tick, loop, reading}
use pprof_operator.Sidecar.Monitor.Cooldown.{times}
use pprof_operator.Sidecar.Monitor.Thresholds.{
  IsOrdered, more, AreBusier, nil, cons, loop-heap_mono,
}
use pprof_operator.Tests.Answers.{config, fixed_point, quantities, answers, tick_at}

div_le : (a b k : ℕ) → 0 < k → a ≤ b → a / k ≤ b / k
div_le a b k p h = (le-div_iff_mul-le p).1 (le_trans (div-mul-le_self a k) h)

leb_of_le : (a b : ℕ) → a ≤ b → leb a b ≡ true
leb_of_le a b h = ground arith

of_int_le : (m n : ℤ) → m ≤ℤ n → fixed_point.ge (fixed_point.of_int n) (fixed_point.of_int m) ≡ true
of_int_le (pos m) (pos n) h = ground arith
of_int_le (negsuc m) (pos n) h = ground arith
of_int_le (pos m) (negsuc n) h = absurd (omega arith)
of_int_le (negsuc m) (negsuc n) h = refl

div_ge :
    (a b : ℕ) (n : ℤ)
    → pos 1 ≤ℤ n
    → leb b a ≡ true
    → fixed_point.ge
        (fixed_point.div a (fixed_point.of_int n))
        (fixed_point.div b (fixed_point.of_int n))
      ≡ true
div_ge a b (pos n) h k =
    leb_of_le _ _ (div_le (b * 1000) (a * 1000) (n * 1000) (omega arith) (ground arith))
div_ge a b (negsuc n) h k = absurd (omega arith)

fixed_point-IsOrdered : IsOrdered fixed_point
fixed_point-IsOrdered = record {
  ge_trans = λ a b c h k. ground arith;
  of_int_mono = of_int_le;
  div_mono = div_ge;
  mul_mono = λ a b h. ground arith;
}

abbrev stats_of : ℕ → ContainerStats
stats_of bytes = record { name = "app"; usage_nano_cores = 450_000_000; working_set_bytes = bytes }

-- 1900 of 2000 bytes.
abbrev more_answers : Answers
more_answers = record answers {
  unmarshal = λ _. some (
      record { name = "pod-1"; namespace = "apps"; uid = "4f2a"; containers = stats_of 1900 ∷ [] }
      ∷ []);
}

abbrev limits : ℤ × ℤ
limits = (pos 500, pos 2000)

reads :
    reading fixed_point quantities config (tick_at 7)
    ≡ ok (percentages fixed_point (stats_of 1500) limits)
unfolding get_kubelet_metrics atoi percentages wrap64 ◌*ℤ◌
reads = refl

abbrev more_tick : Tick
more_tick = record (tick_at 7) { answers = more_answers }

reads_more :
    reading fixed_point quantities config more_tick
    ≡ ok (percentages fixed_point (stats_of 1900) limits)
unfolding get_kubelet_metrics atoi percentages wrap64 ◌*ℤ◌
reads_more = refl

abbrev start : State ℕ
start = record { last_cpu_time = none; metrics = no_metrics }

busier : AreBusier fixed_point quantities config (tick (tick_at 7) ∷ []) (tick more_tick ∷ [])
busier =
    cons
      (more (stats_of 1500) (stats_of 1900) limits refl reads reads_more (omega arith)
        (omega arith))
      nil

loop-heap_mono_example :
    Sublistᴰ (times "heap" (loop fixed_point quantities config (tick (tick_at 7) ∷ []) start).1) (
      times "heap"
        (loop fixed_point quantities
          (record config { memory_threshold = pos 60 })
          (tick more_tick ∷ [])
          start).1)
loop-heap_mono_example =
    loop-heap_mono fixed_point quantities config fixed_point-IsOrdered (pos 60) (omega arith) busier
      start start
