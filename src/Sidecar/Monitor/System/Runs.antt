-- ===== src/Sidecar/Monitor/System/Runs.antt =====
-- What the process can reach is what the loop can do.
use pprof_operator.Prelude.{
  ℕ, ◌+◌, ◌≤◌, ◌≡◌, refl, ◌∙◌, ap, Bool, true, false, ◌⊎◌, inl, inr, List, [], ◌∷◌, ◌++◌,
  append_assoc, append-nil, length, length-append, arith, if◌then◌else◌,
}
use pprof_operator.Sidecar.Config.{Config}
use pprof_operator.Sidecar.Metrics.{Metrics}
use pprof_operator.Sidecar.Kubelet.{Floats, Quantities}
use pprof_operator.Sidecar.Monitor.{Tick, Event, tick, Call, State, on_tick, loop}
use pprof_operator.Sidecar.Monitor.System.{
  Process, started, Environment, fires, signals, Select, takes, returns, environment, select, Reach,
  here, later,
}

-- The events of a list of ticks.
abbrev pub ticks : List Tick → List Event
ticks [] = []
ticks (t ∷ ts) = tick t ∷ ticks ts

abbrev pub bit : Bool → ℕ
bit b = if b then 1 else 0

-- What the loop has become, and the collections that it started.
abbrev pub outcome : {F : Type 0} → Process F → State F × List Call
outcome p = (p.monitor, p.calls)

module _ (fl : Floats) (q : Quantities) (c : Config) where
  open fl use {F}

  loop-snoc :
      (ts : List Tick) (t : Tick) (s : State F)
      → let r = loop fl q c (ticks ts) s in
        let u = on_tick fl q c t r.0 in loop fl q c (ticks (ts ++ (t ∷ []))) s ≡ (u.0, r.1 ++ u.1)
  unfolding loop
  loop-snoc [] t s = rw append-nil refl
  loop-snoc (t' ∷ ts) t s = rw (loop-snoc ts t (on_tick fl q c t' s).0, append_assoc) refl

  -- What is known of a reachable process.
  pub record IsRun (m : Metrics F) (p : Process F) : Type 0 where
    pub taken : List Tick
    pub run : loop fl q c (ticks taken) (started m).monitor ≡ outcome p
    pub counted : length taken ≡ p.handled
    pub dropped : p.handled + bit p.waiting ≤ p.fired
    pub stopped : (p.returned ≡ false) ⊎ (p.cancelled ≡ true)

  Environment-IsRun : {m : Metrics F} {p r : Process F} → Environment p r → IsRun m p → IsRun m r
  Environment-IsRun fires h = record {
    taken = h.taken;
    run = h.run;
    counted = h.counted;
    dropped = ground (arith, h.dropped);
    stopped = h.stopped;
  }
  Environment-IsRun signals h = record {
    taken = h.taken;
    run = h.run;
    counted = h.counted;
    dropped = h.dropped;
    stopped = inr refl;
  }

  Select-IsRun : {m : Metrics F} {p r : Process F} → Select fl q c p r → IsRun m p → IsRun m r
  Select-IsRun {m} {p} (takes t on there) h = record {
    taken = h.taken ++ (t ∷ []);
    run =
        loop-snoc h.taken t (started m).monitor
        ∙ ap
            (λ (r : State F × List Call).
              ((on_tick fl q c t r.0).0, r.1 ++ (on_tick fl q c t r.0).1))
            h.run;
    counted = omega (arith, length-append h.taken (t ∷ []), h.counted);
    dropped = ground (arith, h.dropped);
    stopped = h.stopped;
  }
  Select-IsRun (returns on off) h = record {
    taken = h.taken;
    run = h.run;
    counted = h.counted;
    dropped = h.dropped;
    stopped = inr off;
  }

  -- In every process that can be reached, whatever the ticker, the signals and the choices of
  -- `select` were, the state of the loop and the collections that it started are those of one run
  -- of the loop over the ticks that it took; the ticks taken and the tick that waits are at most as
  -- many as the ticker sent; and the loop has returned only if the context was cancelled.
  pub Reach-IsRun : {m : Metrics F} {p : Process F} → Reach fl q c (started m) p → IsRun m p
  unfolding loop
  Reach-IsRun here = record {
    taken = [];
    run = refl;
    counted = refl;
    dropped = omega arith;
    stopped = inl refl;
  }
  Reach-IsRun (later r (environment e)) = Environment-IsRun e (Reach-IsRun r)
  Reach-IsRun (later r (select e)) = Select-IsRun e (Reach-IsRun r)
