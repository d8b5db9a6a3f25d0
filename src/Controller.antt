-- ===== src/Controller.antt =====
-- The reconciliation of Profilers: internal/controller/profiler_controller.go. The mutation of pods
-- is the webhook's; reconciling only asks whether the Profiler is still there. The API client and
-- `errors.IsNotFound` are parameters.
pub mod Requeue
pub mod Setup
use pprof_operator.Prelude.{
  ℕ, ◌*◌, Bool, String, Option, none, some, Result, ok, err, if◌then◌else◌,
}
use pprof_operator.Api.{Profiler}

-- `ctrl.Request`.
pub record Request : Type 0 where
  pub namespace : String
  pub name : String

-- `ctrl.Result`, with `requeue_after` in nanoseconds, 0 for none.
pub record Outcome : Type 0 where
  pub requeue_after : ℕ

abbrev pub minute : ℕ
minute = 60 * 1_000_000_000

module _ {E : Type 0} (is_not_found : E → Bool) where
  -- `handleProfilerGetError`.
  unfoldable pub handle_profiler_get_error : E → Outcome × Option E
  handle_profiler_get_error e =
      if is_not_found e
      then (record { requeue_after = 0 }, none)
      else (record { requeue_after = 0 }, some e)

  -- `Reconcile`.
  unfoldable pub reconcile : (Request → Result E Profiler) → Request → Outcome × Option E
  unfolding handle_profiler_get_error
  reconcile get req = elim (get req) [
    | ok profiler ↦ (record { requeue_after = minute * 5 }, none)
    | err e ↦ handle_profiler_get_error e
  ]
