-- ===== src/Webhook/Mutator/Server.antt =====
-- The handler in many goroutines at once: every request has its own, and what they share are the
-- metrics of internal/metrics/metrics.go. Each call of Inc or Dec is atomic, and the calls of
-- different goroutines come in any order.
pub mod Interleaving
pub mod Stages
pub mod Serial
use pprof_operator.Prelude.{
  ◌+◌, ◌≡◌, Option, none, some, List, [], ◌∷◌, ◌++◌, lookup, ok, err, if◌then◌else◌,
}
use pprof_operator.Prelude.Int.{pos, ◌+ℤ◌, ◌-ℤ◌}
use pprof_operator.Api.{Profiler}
use pprof_operator.Kube.{Pod}
use pprof_operator.Webhook.Annotations.{annotation_profiler_name}
use pprof_operator.Webhook.Settings.{has_sidecar}
use pprof_operator.Webhook.Builder.{build_profiler_sidecar}
use pprof_operator.Webhook.Mutator.{
  OperatorMetrics, Services, Request, sidecar_name, is_disabled, find_profiler, handle,
}

-- `SidecarsAttached.Inc()`, `SidecarsRemoved.Inc()`, `ActiveSidecars.Inc()`, `ActiveSidecars.Dec()`.
pub data MetricMove : Type 0 where
  attached_inc removed_inc active_inc active_dec : MetricMove

unfoldable pub make_move : MetricMove → OperatorMetrics → OperatorMetrics
make_move attached_inc m = record m { sidecars_attached = m.sidecars_attached + 1 }
make_move removed_inc m = record m { sidecars_removed = m.sidecars_removed + 1 }
make_move active_inc m = record m { active_sidecars = m.active_sidecars +ℤ pos 1 }
make_move active_dec m = record m { active_sidecars = m.active_sidecars -ℤ pos 1 }

-- The moves of the goroutine of one request, in order.
unfoldable pub attach_moves : Pod → Option Profiler → List MetricMove
attach_moves pod none = []
attach_moves pod (some p) = elim (build_profiler_sidecar p pod) [
  | err e ↦ []
  | ok sidecar ↦ attached_inc ∷ active_inc ∷ []
]

module _ (s : Services) where
  unfoldable pub enabled_moves : Pod → Request → List MetricMove
  enabled_moves pod req = elim (lookup annotation_profiler_name pod.annotations) [
    | none ↦ []
    | some name ↦ elim (s.list req.namespace) [
      | none ↦ []
      | some l ↦ attach_moves pod (find_profiler name l.items)
    ]
  ]

  unfoldable pub pod_moves : Pod → Request → List MetricMove
  pod_moves pod req =
      if is_disabled pod
      then if has_sidecar pod.containers sidecar_name then removed_inc ∷ active_dec ∷ [] else []
      else enabled_moves pod req

  unfoldable pub moves : Request → List MetricMove
  moves req = elim s.decoder [
    | none ↦ []
    | some decode ↦ elim (decode req.raw) [ none ↦ [] | some pod ↦ pod_moves pod req ]
  ]

-- A request, with what the world answers to its goroutine.
abbrev pub Arrival : Type 0
Arrival = Services × Request

-- The metrics after the requests were handled one after the other; the last one stands first.
unfoldable pub handled : List Arrival → OperatorMetrics → OperatorMetrics
handled [] m = m
handled ((s, req) ∷ as') m = (handle s req (handled as' m)).0

-- The requests that have come, the last one first, and for each goroutine the moves that it has yet
-- to make.
pub record Server : Type 0 where
  pub metrics : OperatorMetrics
  pub arrived : List Arrival
  pub pending : List (List MetricMove)

abbrev pub started : OperatorMetrics → Server
started m = record { metrics = m; arrived = []; pending = [] }

pub data Step (p : Server) : Server → Type 0 where
  arrives :
      (s : Services) (req : Request)
      → Step p (record p { arrived = (s, req) ∷ p.arrived; pending = moves s req ∷ p.pending })
  goes_on :
      (before : List (List MetricMove)) (move : MetricMove) (rest : List MetricMove)
      (after : List (List MetricMove))
      → p.pending ≡ before ++ ((move ∷ rest) ∷ after)
      → Step p (record p { metrics = make_move move p.metrics; pending = before ++ (rest ∷ after) })

pub data Reach (p : Server) : Server → Type 0 where
  here : Reach p p
  later : {q r : Server} → Reach p q → Step q r → Reach p r
