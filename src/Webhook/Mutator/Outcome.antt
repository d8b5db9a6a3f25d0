-- ===== src/Webhook/Mutator/Outcome.antt =====
-- What a response of `Handle` says of the pod.
use pprof_operator.Prelude.{
  suc, ◌≤◌, ◌≡◌, ◌∙◌, ap, true, false, not, Option, none, some, List, [], ◌∷◌, ◌++◌, append-nil,
  String, lookup, arith, eq_iff, Bool-cases, Option-cases, inl, inr, Result-cases, ok,
  if◌then◌else◌,
}
use pprof_operator.Api.{Profiler}
use pprof_operator.Kube.{Container, Pod}
use pprof_operator.Webhook.Annotations.{annotation_profiler_name}
use pprof_operator.Webhook.Settings.{has_sidecar}
use pprof_operator.Webhook.Builder.{build_profiler_sidecar}
use pprof_operator.Webhook.Mutator.{
  OperatorMetrics, Services, Request, patched, sidecar_name, choose, without_sidecar, is_disabled,
  find_profiler, respond, remove_sidecar_if_exists, attach, handle_enabled, handle_pod, handle,
}
use pprof_operator.Webhook.Mutator.Containers.{
  count_named, count_named-append, count_named-without_sidecar, count_named-pos, has_sidecar-append,
  has_sidecar-without_sidecar, without_sidecar_of_none, without_sidecar-append,
}

-- Whatever is built is named "pprof-sidecar".
pub build_profiler_sidecar-name :
    (p : Profiler) (pod : Pod) {c : Container}
    → build_profiler_sidecar p pod ≡ ok c
    → c.name ≡ sidecar_name
unfolding build_profiler_sidecar
build_profiler_sidecar-name p pod h = ground arith

pub without_sidecar-snoc :
    (cs : List Container) (c : Container)
    → c.name ≡ sidecar_name
    → without_sidecar (cs ++ (c ∷ [])) ≡ without_sidecar cs
unfolding without_sidecar
without_sidecar-snoc cs c h = rw without_sidecar-append (
    ap (λ ds. without_sidecar cs ++ ds) (ground (arith, eq_iff c.name sidecar_name))
    ∙ append-nil (without_sidecar cs))

without_sidecar_idem :
    (cs : List Container) → without_sidecar (without_sidecar cs) ≡ without_sidecar cs
without_sidecar_idem cs = without_sidecar_of_none _ (has_sidecar-without_sidecar cs)

-- The object that the decoder reads.
abbrev pub decoded : Services → String → Option Pod
decoded s raw = elim s.decoder [ none ↦ none | some decode ↦ decode raw ]

module _ (s : Services) where
  -- The patch turns the request's object into the pod with the containers `cs`, among which is the
  -- sidecar exactly if profiling is not switched off, then once more than before, and whose other
  -- containers are the pod's.
  pub record IsPatchOf (pod : Pod) (req : Request) (raw text : String) : Type 0 where
    pub containers : List Container
    pub same_object : raw ≡ req.raw
    pub marshaled : s.marshal (record pod { containers = containers }) ≡ some text
    pub follows_annotation : has_sidecar containers sidecar_name ≡ not (is_disabled pod)
    pub counted :
        count_named sidecar_name containers
        ≡ (if is_disabled pod then 0 else suc (count_named sidecar_name pod.containers))
    pub keeps_others : without_sidecar containers ≡ without_sidecar pod.containers

  respond-patched :
      (req : Request) (pod : Pod) {raw text : String}
      → respond s req pod ≡ patched raw text
      → (raw ≡ req.raw) × (s.marshal pod ≡ some text)
  unfolding respond
  respond-patched req pod h = ground arith

  remove-patched :
      (pod : Pod) (req : Request) (m : OperatorMetrics) {raw text : String}
      → is_disabled pod ≡ true
      → (remove_sidecar_if_exists s pod req m).1 ≡ patched raw text
      → IsPatchOf pod req raw text
  unfolding remove_sidecar_if_exists
  remove-patched pod req m off h = elim (Bool-cases (has_sidecar pod.containers sidecar_name)) [
    | inl there ↦
        let (same, text) = respond-patched req _ (rw there at h) in
        record {
          containers = without_sidecar pod.containers;
          same_object = same;
          marshaled = text;
          follows_annotation = rw (has_sidecar-without_sidecar pod.containers, off);
          counted = rw off (count_named-without_sidecar pod.containers);
          keeps_others = without_sidecar_idem pod.containers;
        }
    | inr absent ↦ absurd (ground arith)
  ]

  attach-patched :
      (pod : Pod) (p : Profiler) (req : Request) (m : OperatorMetrics) {raw text : String}
      → is_disabled pod ≡ false
      → (attach s pod p req m).1 ≡ patched raw text
      → IsPatchOf pod req raw text
  unfolding attach
  attach-patched pod p req m on h = elim (Result-cases (build_profiler_sidecar p pod)) [
    | inl (c, built) ↦
        let named = build_profiler_sidecar-name p pod built in
        let (same, text) =
          respond-patched req (record pod { containers = pod.containers ++ (c ∷ []) })
            (ground arith) in
        record {
          containers = pod.containers ++ (c ∷ []);
          same_object = same;
          marshaled = text;
          follows_annotation = rw (has_sidecar-append pod.containers c sidecar_name named, on);
          counted = rw on (count_named-append pod.containers c sidecar_name named);
          keeps_others = without_sidecar-snoc pod.containers c named;
        }
    | inr (e, failed) ↦ absurd (ground arith)
  ]

  find-patched :
      (pod : Pod) (name : String) (ps : List Profiler) (req : Request) (m : OperatorMetrics)
      {raw text : String}
      → is_disabled pod ≡ false
      → (choose s pod name ps req m).1 ≡ patched raw text
      → IsPatchOf pod req raw text
  find-patched pod name [] req m on h = absurd (ground arith)
  find-patched pod name (p ∷ ps) req m on h = elim (Option-cases (find_profiler name (p ∷ ps))) [
    | inl nothing ↦ absurd (ground arith)
    | inr (q, found) ↦ attach-patched pod q req m on (ground arith)
  ]

  handle_enabled-patched :
      (pod : Pod) (req : Request) (m : OperatorMetrics) {raw text : String}
      → is_disabled pod ≡ false
      → (handle_enabled s pod req m).1 ≡ patched raw text
      → IsPatchOf pod req raw text
  unfolding handle_enabled
  handle_enabled-patched pod req m on h =
      elim (Option-cases (lookup annotation_profiler_name pod.annotations)) [
        | inl nothing ↦ absurd (ground arith)
        | inr (name, named) ↦ elim (Option-cases (s.list req.namespace)) [
          | inl nothing ↦ absurd (ground arith)
          | inr (l, listed) ↦ find-patched pod name l.items req m on (ground arith)
        ]
      ]

  pub handle_pod-patched :
      (pod : Pod) (req : Request) (m : OperatorMetrics) {raw text : String}
      → (handle_pod s pod req m).1 ≡ patched raw text
      → IsPatchOf pod req raw text
  unfolding handle_pod
  handle_pod-patched pod req m h = elim (Bool-cases (is_disabled pod)) [
    | inl off ↦ remove-patched pod req m off (ground arith)
    | inr on ↦ handle_enabled-patched pod req m on (ground arith)
  ]

  pub handle_pod_of_decoded :
      (req : Request) (m : OperatorMetrics) (pod : Pod)
      → decoded s req.raw ≡ some pod
      → handle s req m ≡ handle_pod s pod req m
  unfolding handle
  handle_pod_of_decoded req m pod h = ground arith

  -- Every patch that `Handle` answers with turns the decoded pod into one that has the sidecar if
  -- and only if profiling is not switched off by the pod's annotation, and that is the pod in all
  -- else: its other containers stay as they are, in their order.
  pub handle-IsPatchOf :
      (req : Request) (m : OperatorMetrics) {raw text : String}
      → (handle s req m).1 ≡ patched raw text
      → (pod : Pod) × (decoded s req.raw ≡ some pod) × IsPatchOf pod req raw text
  unfolding handle
  handle-IsPatchOf req m h = elim (Option-cases (decoded s req.raw)) [
    | inl nothing ↦ absurd (ground arith)
    | inr (pod, found) ↦ (pod, found, handle_pod-patched pod req m (ground arith))
  ]

  -- `Handle` does not look for a sidecar before it adds one: where the decoded pod has one already
  -- and is not switched off, every patch leaves at least two containers of that one name.
  pub handle-duplicates :
      (req : Request) (m : OperatorMetrics) (pod : Pod) {raw text : String}
      → decoded s req.raw ≡ some pod
      → is_disabled pod ≡ false
      → has_sidecar pod.containers sidecar_name ≡ true
      → (handle s req m).1 ≡ patched raw text
      → (cs : List Container) × (s.marshal (record pod { containers = cs }) ≡ some text)
        × (2 ≤ count_named sidecar_name cs)
  handle-duplicates req m pod {raw} {text} found on there h =
      let patch = handle_pod-patched pod req m (rw (handle_pod_of_decoded req m pod found) at h) in
      (
        patch.containers,
        patch.marshaled,
        ground (arith, patch.counted, count_named-pos pod.containers there),
      )
