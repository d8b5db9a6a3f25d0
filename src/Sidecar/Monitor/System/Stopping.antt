-- ===== src/Sidecar/Monitor/System/Stopping.antt =====
-- How the loop ends behind a signal.
use pprof_operator.Prelude.{
  ℕ, ◌+◌, ◌≤◌, ◌≡◌, refl, true, ◌⊎◌, inl, inr, arith, suc, Bool-cases, if◌then◌else◌,
}
use pprof_operator.Sidecar.Config.{Config}
use pprof_operator.Sidecar.Kubelet.{Floats, Quantities}
use pprof_operator.Sidecar.Monitor.System.{
  Process, fires, signals, Select, takes, returns, environment, select, Reach, here, later,
}

-- What the loop may still do: to take a tick, and to return.
abbrev work : {F : Type 0} → Process F → ℕ
work p = (if p.waiting then 1 else 0) + (if p.returned then 0 else 1)

module _ (fl : Floats) (q : Quantities) (c : Config) where
  open fl use {F}

  -- The ticks that came on the way, and the choices of `select`.
  abbrev pub sent : {p r : Process F} → Reach fl q c p r → ℕ
  sent here = 0
  sent (later h (environment fires)) = suc (sent h)
  sent (later h (environment signals)) = sent h
  sent (later h (select e)) = sent h

  abbrev pub choices : {p r : Process F} → Reach fl q c p r → ℕ
  choices here = 0
  choices (later h (environment e)) = choices h
  choices (later h (select e)) = suc (choices h)

  Reach-work : {p r : Process F} (h : Reach fl q c p r) → choices h + work r ≤ sent h + work p
  Reach-work here = omega arith
  Reach-work (later h (environment fires)) = ground (arith, Reach-work h)
  Reach-work (later h (environment signals)) = Reach-work h
  Reach-work (later h (select (takes t on there))) = ground (arith, Reach-work h)
  Reach-work (later h (select (returns on off))) = ground (arith, Reach-work h)

  Reach-cancelled : {p r : Process F} → p.cancelled ≡ true → Reach fl q c p r → r.cancelled ≡ true
  Reach-cancelled e here = e
  Reach-cancelled e (later h (environment fires)) = Reach-cancelled e h
  Reach-cancelled e (later h (environment signals)) = refl
  Reach-cancelled e (later h (select (takes t on there))) = Reach-cancelled e h
  Reach-cancelled e (later h (select (returns on off))) = Reach-cancelled e h

  -- Once the context is cancelled, the loop makes at most two choices more than ticks come, a tick
  -- that it still takes and its return, and until it has returned it always has a choice.
  pub Reach-stops :
      {p r : Process F}
      → p.cancelled ≡ true
      → (h : Reach fl q c p r)
      → (choices h ≤ sent h + 2) × ((r.returned ≡ true) ⊎ ((s : Process F) × Select fl q c r s))
  Reach-stops {p} {r} e h = (
    ground (arith, Reach-work h),
    elim (Bool-cases r.returned) [
      | inl ended ↦ inl ended
      | inr on ↦ inr (record r { returned = true }, returns on (Reach-cancelled e h))
    ],
  )
