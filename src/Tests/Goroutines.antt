-- ===== src/Tests/Goroutines.antt =====
-- Two goroutines of the webhook, one of which waits in the middle.
use pprof_operator.Prelude.Int.{◌-ℤ◌}
use pprof_operator.Prelude.{ap, ◌≤◌, ◌≡◌, ◌⊎◌, refl, List, [], ◌∷◌}
use pprof_operator.Webhook.Mutator.{is_disabled, find_profiler}
use pprof_operator.Webhook.Mutator.Order.{plus}
use pprof_operator.Webhook.Builder.{build_profiler_sidecar}
use pprof_operator.Webhook.Settings.{has_sidecar}
use pprof_operator.Webhook.Mutator.Server.{
  MetricMove, handled, attached_inc, removed_inc, active_inc, active_dec, make_move, attach_moves,
  enabled_moves, pod_moves, moves, Server, arrives, goes_on, Reach, here, later, started,
}
use pprof_operator.Webhook.Mutator.Server.Interleaving.{total_all}
use pprof_operator.Webhook.Mutator.Server.Stages.{unfinished, IsWithin}
use pprof_operator.Webhook.Mutator.Server.Serial.{Reach-IsSerial}
use pprof_operator.Tests.Data.{services, request, no_operator_metrics}

moves_on : moves services (request "on") ≡ attached_inc ∷ active_inc ∷ []
unfolding moves pod_moves is_disabled enabled_moves attach_moves find_profiler
    build_profiler_sidecar
moves_on = refl

moves_off : moves services (request "off") ≡ removed_inc ∷ active_dec ∷ []
unfolding moves pod_moves is_disabled has_sidecar
moves_off = refl

-- Both have come.
abbrev both : Server
both = record {
  metrics = no_operator_metrics;
  arrived = (services, request "off") ∷ (services, request "on") ∷ [];
  pending = moves services (request "off") ∷ moves services (request "on") ∷ [];
}

-- The second has made both its moves, the first one of its two.
abbrev halfway : Server
halfway = record both {
  metrics =
      make_move attached_inc (make_move active_dec (make_move removed_inc no_operator_metrics));
  pending = [] ∷ (active_inc ∷ []) ∷ [];
}

run : Reach (started no_operator_metrics) halfway
run =
    later
      (later
        (later
          (later (later here (arrives services (request "on"))) (arrives services (request "off")))
          (goes_on [] removed_inc (active_dec ∷ []) (moves services (request "on") ∷ [])
            (ap (λ (l : List MetricMove). l ∷ moves services (request "on") ∷ []) moves_off)))
        (goes_on [] active_dec [] (moves services (request "on") ∷ []) refl))
      (goes_on ([] ∷ []) attached_inc (active_inc ∷ []) []
        (ap (λ (l : List MetricMove). [] ∷ l ∷ []) moves_on))

Reach-IsSerial_example :
    (plus halfway.metrics (total_all halfway.pending) ≡ handled halfway.arrived no_operator_metrics)
    × ((1 ≤ unfinished halfway.pending)
        ⊎ (halfway.metrics ≡ handled halfway.arrived no_operator_metrics))
    × IsWithin (unfinished halfway.pending) halfway.metrics
unfolding ◌-ℤ◌
Reach-IsSerial_example = Reach-IsSerial run refl
