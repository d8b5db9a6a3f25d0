-- ===== src/Tests/Concurrency.antt =====
-- The sidecar's process among its ticker and signals, on a concrete run.
use pprof_operator.Prelude.{ℕ, ◌≤◌, ◌+◌, ◌≡◌, ◌⊎◌, refl, true}
use pprof_operator.Sidecar.Metrics.{Metrics, no_metrics}
use pprof_operator.Sidecar.Monitor.System.{
  Process, started, fires, signals, took, Select, takes, returns, environment, select, Reach, here,
  later,
}
use pprof_operator.Sidecar.Monitor.System.Runs.{IsRun, Reach-IsRun}
use pprof_operator.Sidecar.Monitor.System.Stopping.{sent, choices, Reach-stops}
use pprof_operator.Tests.Answers.{config, fixed_point, quantities, tick_at}

abbrev metrics : Metrics ℕ
metrics = no_metrics

-- A tick comes and waits when the signal does.
abbrev cancelled : Process ℕ
cancelled = record (started metrics) { waiting = true; fired = 1; cancelled = true }

before : Reach fixed_point quantities config (started metrics) cancelled
before = later (later here (environment fires)) (environment signals)

-- It is still taken, another one comes, and the loop returns.
abbrev handled : Process ℕ
handled = took fixed_point quantities config (tick_at 5) cancelled

abbrev ended : Process ℕ
ended = record handled { waiting = true; fired = 2; returned = true }

abbrev after : Reach fixed_point quantities config cancelled ended
after =
    later (later (later here (select (takes (tick_at 5) refl refl))) (environment fires))
      (select (returns refl refl))

Reach-IsRun_example : IsRun fixed_point quantities config metrics cancelled
Reach-IsRun_example = Reach-IsRun fixed_point quantities config before

Reach-stops_example :
    (choices fixed_point quantities config after ≤ sent fixed_point quantities config after + 2)
    × ((ended.returned ≡ true) ⊎ ((s : Process ℕ) × Select fixed_point quantities config ended s))
Reach-stops_example = Reach-stops fixed_point quantities config refl after
