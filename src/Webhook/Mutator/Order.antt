-- ===== src/Webhook/Mutator/Order.antt =====
-- The order of requests does not matter: the metrics and the answers of one request depend on it
-- alone, so that a batch of requests is as good as any other order of it.
use mathlib.Core.List.{Perm, map, foldr}
use mathlib.Core.List.Perm
use pprof_operator.Prelude.{
  ◌+◌, ◌≡◌, refl, ◌∙◌, sym, ap, List, [], ◌∷◌, String, lookup, arith, Bool-cases, Option-cases,
  Result-cases, inl, inr,
}
use pprof_operator.Prelude.Int.{pos, ◌+ℤ◌, ◌-ℤ◌, int_laws}
use pprof_operator.Api.{Profiler}
use pprof_operator.Kube.{Pod}
use pprof_operator.Webhook.Annotations.{annotation_profiler_name}
use pprof_operator.Webhook.Settings.{has_sidecar}
use pprof_operator.Webhook.Builder.{build_profiler_sidecar}
use pprof_operator.Webhook.Mutator.{
  OperatorMetrics, Services, Request, Response, choose, sidecar_name, is_disabled, find_profiler,
  remove_sidecar_if_exists, attach, handle_enabled, handle_pod, handle, handle_all,
}

OperatorMetrics-IsSet : IsSet OperatorMetrics
OperatorMetrics-IsSet = hlevel

abbrev pub plus : OperatorMetrics → OperatorMetrics → OperatorMetrics
plus m n = record {
  sidecars_attached = m.sidecars_attached + n.sidecars_attached;
  sidecars_removed = m.sidecars_removed + n.sidecars_removed;
  active_sidecars = m.active_sidecars +ℤ n.active_sidecars;
}

-- The metrics `m` on top, the answer as it is.
abbrev shift : OperatorMetrics → OperatorMetrics × Response → OperatorMetrics × Response
shift m r = (plus m r.0, r.1)

abbrev added : OperatorMetrics → OperatorMetrics
added n = record n {
  sidecars_attached = n.sidecars_attached + 1;
  active_sidecars = n.active_sidecars +ℤ pos 1;
}

abbrev removed : OperatorMetrics → OperatorMetrics
removed n = record n {
  sidecars_removed = n.sidecars_removed + 1;
  active_sidecars = n.active_sidecars -ℤ pos 1;
}

pub metrics_ext :
    (m n : OperatorMetrics)
    → m.sidecars_attached ≡ n.sidecars_attached
    → m.sidecars_removed ≡ n.sidecars_removed
    → m.active_sidecars ≡ n.active_sidecars
    → m ≡ n
metrics_ext m n a b c =
    λ i. record { sidecars_attached = a i; sidecars_removed = b i; active_sidecars = c i }

added-plus : (m n : OperatorMetrics) → added (plus m n) ≡ plus m (added n)
added-plus m n = metrics_ext _ _ (omega arith) (omega arith) (omega int_laws)

removed-plus : (m n : OperatorMetrics) → removed (plus m n) ≡ plus m (removed n)
removed-plus m n = metrics_ext _ _ (omega arith) (omega arith) (omega int_laws)

module _ (s : Services) (m n : OperatorMetrics) where
  remove-plus :
      (pod : Pod) (req : Request)
      → remove_sidecar_if_exists s pod req (plus m n)
        ≡ shift m (remove_sidecar_if_exists s pod req n)
  unfolding remove_sidecar_if_exists
  remove-plus pod req = elim (Bool-cases (has_sidecar pod.containers sidecar_name)) [
    | inl there ↦ rw (there, removed-plus m n) refl
    | inr absent ↦ rw absent refl
  ]

  attach-plus :
      (pod : Pod) (p : Profiler) (req : Request)
      → attach s pod p req (plus m n) ≡ shift m (attach s pod p req n)
  unfolding attach
  attach-plus pod p req = elim (Result-cases (build_profiler_sidecar p pod)) [
    | inl (c, built) ↦ rw (built, attach, added-plus m n) refl
    | inr (e, failed) ↦ rw (failed, attach) refl
  ]

  choose-plus :
      (pod : Pod) (name : String) (ps : List Profiler) (req : Request)
      → choose s pod name ps req (plus m n) ≡ shift m (choose s pod name ps req n)
  choose-plus pod name [] req = refl
  choose-plus pod name (p ∷ ps) req = elim (Option-cases (find_profiler name (p ∷ ps))) [
    | inl nothing ↦ rw (nothing, choose) refl
    | inr (q, found) ↦ rw (found, choose) (attach-plus pod q req)
  ]

  enabled-plus :
      (pod : Pod) (req : Request)
      → handle_enabled s pod req (plus m n) ≡ shift m (handle_enabled s pod req n)
  unfolding handle_enabled
  enabled-plus pod req = elim (Option-cases (lookup annotation_profiler_name pod.annotations)) [
    | inl nothing ↦ rw (nothing, handle_enabled) refl
    | inr (name, named) ↦ elim (Option-cases (s.list req.namespace)) [
      | inl nothing ↦ rw (named, handle_enabled, nothing) refl
      | inr (l, listed) ↦ rw (named, handle_enabled, listed) (choose-plus pod name l.items req)
    ]
  ]

  pod-plus :
      (pod : Pod) (req : Request)
      → handle_pod s pod req (plus m n) ≡ shift m (handle_pod s pod req n)
  unfolding handle_pod
  pod-plus pod req = elim (Bool-cases (is_disabled pod)) [
    | inl off ↦ elim (Bool-cases (has_sidecar pod.containers sidecar_name)) [
      | inl there ↦ rw (off, there) (remove-plus pod req)
      | inr absent ↦ rw (off, absent) refl
    ]
    | inr on ↦ rw on (enabled-plus pod req)
  ]

  handle-plus : (req : Request) → handle s req (plus m n) ≡ shift m (handle s req n)
  unfolding handle
  handle-plus req = elim (Option-cases s.decoder) [
    | inl nothing ↦ rw (nothing, handle) refl
    | inr (decode, there) ↦ elim (Option-cases (decode req.raw)) [
      | inl unread ↦ rw (there, handle, unread) refl
      | inr (pod, read) ↦ rw (there, handle, read) (pod-plus pod req)
    ]
  ]

pub plus_comm : (m n : OperatorMetrics) → plus m n ≡ plus n m
plus_comm m n = metrics_ext _ _ (omega arith) (omega arith) (omega int_laws)

pub plus_left_comm : (m n o : OperatorMetrics) → plus m (plus n o) ≡ plus n (plus m o)
plus_left_comm m n o = metrics_ext _ _ (omega arith) (omega arith) (omega int_laws)

abbrev pub zero_metrics : OperatorMetrics
zero_metrics = record { sidecars_attached = 0; sidecars_removed = 0; active_sidecars = pos 0 }

pub plus-zero_metrics : (m : OperatorMetrics) → plus m zero_metrics ≡ m
plus-zero_metrics m = metrics_ext _ _ (omega arith) (omega arith) (omega int_laws)

module _ (s : Services) where
  -- What one request does to the metrics, and what it is answered.
  unfoldable pub change : Request → OperatorMetrics
  change req = (handle s req zero_metrics).0

  pub answer : Request → Response
  answer req = (handle s req zero_metrics).1

  pub handle-change :
      (req : Request) (m : OperatorMetrics) → handle s req m ≡ (plus m (change req), answer req)
  unfolding change answer
  handle-change req m =
      ap (handle s req) (sym (plus-zero_metrics m)) ∙ handle-plus s m zero_metrics req

  handle_all-answer :
      (rs : List Request) (m : OperatorMetrics) → (handle_all s rs m).1 ≡ map answer rs
  unfolding handle_all
  handle_all-answer [] m = refl
  handle_all-answer (r ∷ rs) m =
      rw (handle-change r m)
        (ap (λ (as' : List Response). answer r ∷ as') (handle_all-answer rs (plus m (change r))))

  handle_all-plus :
      (rs : List Request) (m n : OperatorMetrics)
      → (handle_all s rs (plus m n)).0 ≡ plus m (handle_all s rs n).0
  unfolding handle_all
  handle_all-plus [] m n = refl
  handle_all-plus (r ∷ rs) m n = rw (handle-plus s m n r) (handle_all-plus rs m (handle s r n).0)

  pub handle_all-change :
      (rs : List Request) (m : OperatorMetrics)
      → (handle_all s rs m).0 ≡ foldr (λ r n. plus (change r) n) m rs
  unfolding handle_all
  handle_all-change [] m = refl
  handle_all-change (r ∷ rs) m =
      rw (handle-change r m, plus_comm m (change r), handle_all-plus rs (change r) m)
        (ap (plus (change r)) (handle_all-change rs m))

  -- The order in which a batch of requests is handled does not matter: any other order of them
  -- leaves the same metrics, and gives the same answers in another order.
  pub handle_all-perm :
      (rs qs : List Request) (m : OperatorMetrics)
      → Perm rs qs
      → ((handle_all s rs m).0 ≡ (handle_all s qs m).0)
        × Perm (handle_all s rs m).1 (handle_all s qs m).1
  handle_all-perm rs qs m p = (
    handle_all-change rs m
        ∙ Perm.foldr-eq OperatorMetrics-IsSet (λ r n. plus (change r) n)
            (λ a b n. plus_left_comm (change a) (change b) n) p m
        ∙ sym (handle_all-change qs m),
    rw (handle_all-answer rs m, handle_all-answer qs m) (Perm.map answer p),
  )
