-- ===== src/Webhook/Mutator/Injection.antt =====
-- When `Handle` adds a sidecar, and which one.
use pprof_operator.Prelude.{
  ◌+◌, ◌≡◌, ◌↔◌, refl, ◌∙◌, ap, false, some, List, [], ◌∷◌, ◌++◌, String, lookup, arith, Bool-cases,
  Option-cases, Result-cases, inl, inr, ok,
}
use pprof_operator.Prelude.Int.{pos, ◌+ℤ◌}
use pprof_operator.Api.{Profiler, ProfilerList}
use pprof_operator.Kube.{Pod}
use pprof_operator.Webhook.Annotations.{annotation_profiler_name}
use pprof_operator.Webhook.Builder.{target_container, container_of, build_profiler_sidecar}
use pprof_operator.Webhook.Mutator.{
  OperatorMetrics, Services, Request, choose, is_disabled, find_profiler, respond,
  remove_sidecar_if_exists, attach, handle_enabled, handle_pod, handle,
}
use pprof_operator.Webhook.Mutator.Outcome.{decoded, handle_pod_of_decoded}

not_found : (name : String) {p : Profiler} → ¬ (find_profiler name [] ≡ some p)
unfolding find_profiler
not_found name h = absurd (ground (arith, h))

pub build_profiler_sidecar_of_target :
    (p : Profiler) (pod : Pod) (target : String)
    → target_container pod ≡ ok target
    → build_profiler_sidecar p pod ≡ ok (container_of p pod target)
unfolding build_profiler_sidecar
build_profiler_sidecar_of_target p pod target h = rw h refl

module _ (s : Services) where
  -- The request is for a pod that asks for the profiler, which is there, and the pod has a container
  -- to profile.
  pub record Wants (req : Request) (pod : Pod) (p : Profiler) (target : String) : Type 0 where
    pub name : String
    pub listed : ProfilerList
    pub read : decoded s req.raw ≡ some pod
    pub enabled : is_disabled pod ≡ false
    pub named : lookup annotation_profiler_name pod.annotations ≡ some name
    pub answered : s.list req.namespace ≡ some listed
    pub found : find_profiler name listed.items ≡ some p
    pub targeted : target_container pod ≡ ok target

  -- The pod with its sidecar.
  abbrev pub injected : Pod → Profiler → String → Pod
  injected pod p target = record pod {
    containers = pod.containers ++ (container_of p pod target ∷ []);
  }

  abbrev pub counted : OperatorMetrics → OperatorMetrics
  counted m = record m {
    sidecars_attached = m.sidecars_attached + 1;
    active_sidecars = m.active_sidecars +ℤ pos 1;
  }

  attach_of_target :
      (pod : Pod) (p : Profiler) (target : String) (req : Request) (m : OperatorMetrics)
      → target_container pod ≡ ok target
      → attach s pod p req m ≡ (counted m, respond s req (injected pod p target))
  unfolding attach
  attach_of_target pod p target req m h =
      rw (build_profiler_sidecar_of_target p pod target h, attach) refl

  choose_of_found :
      (pod : Pod) (name : String) (ps : List Profiler) (p : Profiler) (req : Request)
      (m : OperatorMetrics)
      → find_profiler name ps ≡ some p
      → choose s pod name ps req m ≡ attach s pod p req m
  choose_of_found pod name [] p req m h = absurd (not_found name h)
  choose_of_found pod name (q ∷ ps) p req m h = rw (h, choose) refl

  enabled_of_Wants :
      (req : Request) (pod : Pod) (p : Profiler) (target : String) (m : OperatorMetrics)
      (w : Wants req pod p target)
      → handle_enabled s pod req m ≡ choose s pod w.name w.listed.items req m
  unfolding handle_enabled
  enabled_of_Wants req pod p target m w = rw (w.named, handle_enabled, w.answered) refl

  pub handle_of_Wants :
      (req : Request) (pod : Pod) (p : Profiler) (target : String) (m : OperatorMetrics)
      → Wants req pod p target
      → handle s req m ≡ (counted m, respond s req (injected pod p target))
  unfolding handle_pod
  handle_of_Wants req pod p target m w =
      handle_pod_of_decoded s req m pod w.read
      ∙ rw w.enabled (enabled_of_Wants req pod p target m w)
      ∙ choose_of_found pod w.name w.listed.items p req m w.found
      ∙ attach_of_target pod p target req m w.targeted

  -- The counter of attached sidecars has moved.
  abbrev pub Attaches : Request → OperatorMetrics → Type 0
  Attaches req m = (handle s req m).0.sidecars_attached ≡ m.sidecars_attached + 1

  abbrev pub SomeWants : Request → Type 0
  SomeWants req = (pod : Pod) × (p : Profiler) × (target : String) × Wants req pod p target

  attached_target :
      (pod : Pod) (p : Profiler) (req : Request) (m : OperatorMetrics)
      → (attach s pod p req m).0.sidecars_attached ≡ m.sidecars_attached + 1
      → (target : String) × (target_container pod ≡ ok target)
  unfolding attach build_profiler_sidecar
  attached_target pod p req m h = elim (Result-cases (target_container pod)) [
    | inl found ↦ found
    | inr (e, failed) ↦ absurd (ground arith)
  ]

  chosen_profiler :
      (pod : Pod) (name : String) (ps : List Profiler) (req : Request) (m : OperatorMetrics)
      → (choose s pod name ps req m).0.sidecars_attached ≡ m.sidecars_attached + 1
      → (p : Profiler) × (find_profiler name ps ≡ some p)
  chosen_profiler pod name [] req m h = absurd (ground arith)
  chosen_profiler pod name (q ∷ ps) req m h = elim (Option-cases (find_profiler name (q ∷ ps))) [
    | inr found ↦ found
    | inl nothing ↦ absurd (ground arith)
  ]

  enabled-SomeWants :
      (req : Request) (pod : Pod) (m : OperatorMetrics)
      → decoded s req.raw ≡ some pod
      → is_disabled pod ≡ false
      → (handle_enabled s pod req m).0.sidecars_attached ≡ m.sidecars_attached + 1
      → SomeWants req
  unfolding handle_enabled
  enabled-SomeWants req pod m read on h =
      elim (Option-cases (lookup annotation_profiler_name pod.annotations)) [
        | inl nothing ↦ absurd (ground arith)
        | inr (name, named) ↦ elim (Option-cases (s.list req.namespace)) [
          | inl nothing ↦ absurd (ground arith)
          | inr (listed, answered) ↦
              let (p, found) = chosen_profiler pod name listed.items req m (ground arith) in
              let (target, targeted) =
                attached_target pod p req m
                  (rw (← choose_of_found pod name listed.items p req m found) (ground arith)) in
              (
                pod,
                p,
                target,
                record {
                  name = name;
                  listed = listed;
                  read = read;
                  enabled = on;
                  named = named;
                  answered = answered;
                  found = found;
                  targeted = targeted;
                },
              )
        ]
      ]

  remove-attached :
      (pod : Pod) (req : Request) (m : OperatorMetrics)
      → (remove_sidecar_if_exists s pod req m).0.sidecars_attached ≡ m.sidecars_attached
  unfolding remove_sidecar_if_exists
  remove-attached pod req m = ground arith

  attached-SomeWants : (req : Request) (m : OperatorMetrics) → Attaches req m → SomeWants req
  unfolding handle handle_pod
  attached-SomeWants req m h = elim (Option-cases (decoded s req.raw)) [
    | inl nothing ↦ absurd (ground arith)
    | inr (pod, read) ↦ elim (Bool-cases (is_disabled pod)) [
      | inl off ↦ absurd (ground (arith, remove-attached pod req m))
      | inr on ↦ enabled-SomeWants req pod m read on (ground arith)
    ]
  ]

  -- `Handle` counts a sidecar as attached exactly for a request that wants one: the pod is read, is
  -- not switched off and names a profiler, the profilers of the namespace are listed and hold one of
  -- that name, and there is a container to profile. The answer is then the pod with that one sidecar
  -- behind its containers, built from the first profiler of the name and for that container.
  pub handle-Attaches_iff :
      (req : Request) (m : OperatorMetrics)
      → (Attaches req m ↔ SomeWants req)
        × ((pod : Pod) (p : Profiler) (target : String)
            → Wants req pod p target
            → (handle s req m).1 ≡ respond s req (injected pod p target))
  handle-Attaches_iff req m = (
    (
      attached-SomeWants req m,
      λ (pod, p, target, w). ap (λ r. r.0.sidecars_attached) (handle_of_Wants req pod p target m w),
    ),
    λ pod p target w. ap (λ r. r.1) (handle_of_Wants req pod p target m w),
  )
