-- ===== src/Tests/Buckets.antt =====
-- A run that stores two profiles of one type at one time.
use mathlib.Core.List.{map}
use pprof_operator.Prelude.{ℕ, none, ◌+◌, ◌≡◌, ◌↔◌, List, [], ◌∷◌, length, arith}
use pprof_operator.Sidecar.Metrics.{no_metrics}
use pprof_operator.Sidecar.Monitor.{Event, tick, State, loop}
use pprof_operator.Sidecar.Monitor.Bucket.{objects, key, stored}
use pprof_operator.Sidecar.Monitor.Bucket.Objects.{AreDistinct}
use pprof_operator.Sidecar.Monitor.Bucket.Uploads.{loop-objects_iff}
use pprof_operator.Tests.Answers.{config, fixed_point, quantities, tick_at}
use pprof_operator.Tests.Collecting.{pod-IsPart, prefix_named}

abbrev events : List Event
events = tick (tick_at 7) ∷ tick (tick_at 8) ∷ []

abbrev start : State ℕ
start = record { last_cpu_time = none; metrics = no_metrics }

loop-objects_iff_example :
    ((loop fixed_point quantities config events start).0.metrics.profiles_uploaded
      ≡ start.metrics.profiles_uploaded
        + length (stored fixed_point quantities config events start))
    × (((loop fixed_point quantities config events start).0.metrics.profiles_uploaded
          ≡ start.metrics.profiles_uploaded
            + length (
                objects (
                  map
                    (key fixed_point quantities config)
                    (stored fixed_point quantities config events start))))
        ↔ AreDistinct (stored fixed_point quantities config events start))
loop-objects_iff_example =
    loop-objects_iff fixed_point quantities config events start prefix_named pod-IsPart
      (ground arith) ((ground arith, ground arith), ((ground arith, ground arith), tt))
