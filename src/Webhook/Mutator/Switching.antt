-- ===== src/Webhook/Mutator/Switching.antt =====
-- Switching profiling on and off again, and on twice.
use pprof_operator.Prelude.{◌+◌, ◌≡◌, refl, true, false, List, [], ◌∷◌, ◌++◌, String, ok, ◌∙◌, ap}
use pprof_operator.Prelude.Int.{pos, ◌-ℤ◌}
use pprof_operator.Api.{Profiler}
use pprof_operator.Kube.{Container, Pod}
use pprof_operator.Webhook.Settings.{has_sidecar}
use pprof_operator.Webhook.Builder.{build_profiler_sidecar}
use pprof_operator.Webhook.Mutator.{
  OperatorMetrics, Services, Request, sidecar_name, without_sidecar, is_disabled, respond,
  remove_sidecar_if_exists, handle_pod,
}
use pprof_operator.Webhook.Mutator.Containers.{has_sidecar-append, without_sidecar_of_none}
use pprof_operator.Webhook.Mutator.Outcome.{build_profiler_sidecar-name, without_sidecar-snoc}

module _ (s : Services) where
  remove_of_sidecar :
      (pod : Pod) (req : Request) (m : OperatorMetrics)
      → is_disabled pod ≡ true
      → has_sidecar pod.containers sidecar_name ≡ true
      → handle_pod s pod req m ≡ (
        record m {
          sidecars_removed = m.sidecars_removed + 1;
          active_sidecars = m.active_sidecars -ℤ pos 1;
        },
        respond s req (record pod { containers = without_sidecar pod.containers }),
      )
  unfolding handle_pod remove_sidecar_if_exists
  remove_of_sidecar pod req m off there = rw (off, there) refl

  -- Take a pod with no sidecar, with the container that is built for it put behind its own. Where
  -- the annotations of that pod switch profiling off, the handler counts a removal, and answers
  -- with the pod whose containers are the first pod's again.
  pub handle_pod-attached :
      (pod : Pod) (p : Profiler) (annotations : List (String × String)) (req : Request)
      (m : OperatorMetrics) {c : Container}
      → has_sidecar pod.containers sidecar_name ≡ false
      → build_profiler_sidecar p pod ≡ ok c
      → let on = record pod {
        annotations = annotations;
        containers = pod.containers ++ (c ∷ []);
      } in
        is_disabled on ≡ true
        → handle_pod s on req m ≡ (
          record m {
            sidecars_removed = m.sidecars_removed + 1;
            active_sidecars = m.active_sidecars -ℤ pos 1;
          },
          respond s req (record pod { annotations = annotations }),
        )
  handle_pod-attached pod p annotations req m {c} absent built off =
      let named = build_profiler_sidecar-name p pod built in
      let on : Pod = record pod {
        annotations = annotations;
        containers = pod.containers ++ (c ∷ []);
      } in
      remove_of_sidecar on req m off (has_sidecar-append pod.containers c sidecar_name named)
      ∙ ap
          (λ (cs : List Container). (
            record m {
              sidecars_removed = m.sidecars_removed + 1;
              active_sidecars = m.active_sidecars -ℤ pos 1;
            },
            respond s req (record pod { annotations = annotations; containers = cs }),
          ))
          (without_sidecar-snoc pod.containers c named
            ∙ without_sidecar_of_none pod.containers absent)
