-- ===== src/Sidecar/Monitor/System.antt =====
-- The loop among the goroutines of the sidecar: `main` and `monitorResourceUsage` of
-- sidecar/cmd/main.go with the ticker and the signals. The ticker's channel holds one tick, and a
-- tick that comes while one waits is dropped. Where a tick waits and the context is cancelled,
-- `select` may take either.
pub mod Runs
pub mod Stopping
use pprof_operator.Prelude.{ℕ, ◌+◌, ◌≡◌, Bool, true, false, none, List, [], ◌++◌}
use pprof_operator.Sidecar.Config.{Config}
use pprof_operator.Sidecar.Metrics.{Metrics}
use pprof_operator.Sidecar.Kubelet.{Floats, Quantities}
use pprof_operator.Sidecar.Monitor.{Tick, Call, State, on_tick}

-- `waiting`: a tick lies in the ticker's channel. `cancelled`: the signal's goroutine has called
-- `cancel`. `returned`: the loop has ended. `fired` and `handled` count the ticks that the ticker
-- sent and those that the loop took.
pub record Process (F : Type 0) : Type 0 where
  pub monitor : State F
  pub calls : List Call
  pub waiting : Bool
  pub cancelled : Bool
  pub returned : Bool
  pub fired : ℕ
  pub handled : ℕ

abbrev pub started : {F : Type 0} → Metrics F → Process F
started m = record {
  monitor = record { last_cpu_time = none; metrics = m };
  calls = [];
  waiting = false;
  cancelled = false;
  returned = false;
  fired = 0;
  handled = 0;
}

-- What happens to the process.
pub data Environment {F : Type 0} (p : Process F) : Process F → Type 0 where
  fires : Environment p (record p { waiting = true; fired = p.fired + 1 })
  signals : Environment p (record p { cancelled = true })

module _ (fl : Floats) (q : Quantities) (c : Config) where
  open fl use {F}

  -- The process after a tick.
  abbrev pub took : Tick → Process F → Process F
  took t p = record p {
    monitor = (on_tick fl q c t p.monitor).0;
    calls = p.calls ++ (on_tick fl q c t p.monitor).1;
    waiting = false;
    handled = p.handled + 1;
  }

  -- The two cases of `select`.
  pub data Select (p : Process F) : Process F → Type 0 where
    takes : (t : Tick) → p.returned ≡ false → p.waiting ≡ true → Select p (took t p)
    returns : p.returned ≡ false → p.cancelled ≡ true → Select p (record p { returned = true })

  pub data Step (p r : Process F) : Type 0 where
    environment : Environment p r → Step p r
    select : Select p r → Step p r

  pub data Reach (p : Process F) : Process F → Type 0 where
    here : Reach p p
    later : {r s : Process F} → Reach p r → Step r s → Reach p s
