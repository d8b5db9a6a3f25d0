-- ===== src/Webhook/Mutator/Settling.antt =====
-- A removal that is submitted once more.
use pprof_operator.Prelude.{◌≡◌, refl, ◌∙◌, ap, sym, true, false, not, some, String, List}
use pprof_operator.Kube.{Pod, Container}
use pprof_operator.Webhook.Settings.{has_sidecar}
use pprof_operator.Webhook.Mutator.{
  OperatorMetrics, Services, Request, patched, allowed, sidecar_name, is_disabled, without_sidecar,
  handle_pod, handle,
}
use pprof_operator.Webhook.Mutator.Containers.{has_sidecar-without_sidecar, without_sidecar_of_none}
use pprof_operator.Webhook.Mutator.Outcome.{decoded, handle_pod_of_decoded, handle_pod-patched}

-- What is printed for one pod is read back.
abbrev pub ReadsBack : Services → Pod → String → Type 0
ReadsBack s pod text = s.marshal pod ≡ some text → decoded s text ≡ some pod

-- The pod with no sidecar.
abbrev pub settled : Pod → Pod
settled pod = record pod { containers = without_sidecar pod.containers }

module _ (s : Services) where
  without_need :
      (pod : Pod) (req : Request) (m : OperatorMetrics)
      → is_disabled pod ≡ true
      → has_sidecar pod.containers sidecar_name ≡ false
      → handle_pod s pod req m
        ≡ (m, allowed "Pod does not have profiler.pprof.dev/enable=true annotation")
  unfolding handle_pod
  without_need pod req m off none_left = rw (off, none_left) refl

  same_switch :
      (pod : Pod) (cs : List Container)
      → is_disabled (record pod { containers = cs }) ≡ is_disabled pod
  unfolding is_disabled
  same_switch pod cs = refl

  -- Where the decoder reads back what is printed for the pod with no sidecar: a pod that is
  -- switched off and was patched has nothing left to remove. Submitted again it is admitted
  -- unchanged, and the metrics stay.
  pub handle-settles :
      (req : Request) (m m' : OperatorMetrics) (namespace : String) (pod : Pod) {raw text : String}
      → decoded s req.raw ≡ some pod
      → is_disabled pod ≡ true
      → (handle s req m).1 ≡ patched raw text
      → ReadsBack s (settled pod) text
      → handle s (record { namespace = namespace; raw = text }) m'
        ≡ (m', allowed "Pod does not have profiler.pprof.dev/enable=true annotation")
  handle-settles req m m' namespace pod {raw} {text} found off h back =
      let patch =
        handle_pod-patched s pod req m (rw (handle_pod_of_decoded s req m pod found) at h) in
      let again : Request = record { namespace = namespace; raw = text } in
      let bare = patch.follows_annotation ∙ ap not off in
      let same = sym (without_sidecar_of_none patch.containers bare) ∙ patch.keeps_others in
      let printed =
        ap (λ (cs : List Container). s.marshal (record pod { containers = cs })) (sym same)
        ∙ patch.marshaled in
      handle_pod_of_decoded s again m' (settled pod) (back printed)
      ∙ without_need (settled pod) again m' (same_switch pod _ ∙ off)
          (has_sidecar-without_sidecar pod.containers)
