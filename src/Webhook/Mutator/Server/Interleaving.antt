-- ===== src/Webhook/Mutator/Server/Interleaving.antt =====
-- What the goroutines' moves add to the metrics.
use pprof_operator.Prelude.{
  ◌≡◌, refl, ◌∙◌, ap, List, [], ◌∷◌, ◌++◌, String, lookup, arith, Bool-cases, Option-cases,
  Result-cases, inl, inr, some,
}
use pprof_operator.Prelude.Int.{int_laws}
use pprof_operator.Api.{Profiler}
use pprof_operator.Kube.{Pod}
use pprof_operator.Webhook.Annotations.{annotation_profiler_name}
use pprof_operator.Webhook.Settings.{has_sidecar}
use pprof_operator.Webhook.Builder.{build_profiler_sidecar}
use pprof_operator.Webhook.Mutator.{
  OperatorMetrics, Services, Request, choose, sidecar_name, is_disabled, find_profiler,
  remove_sidecar_if_exists, attach, handle_enabled, handle_pod, handle,
}
use pprof_operator.Webhook.Mutator.Order.{metrics_ext, plus, plus_left_comm, zero_metrics, change}
use pprof_operator.Webhook.Mutator.Server.{
  MetricMove, attached_inc, removed_inc, active_inc, active_dec, make_move, attach_moves,
  enabled_moves, pod_moves, moves,
}

-- What one move, the rest of a goroutine and all goroutines add to the metrics.
abbrev pub delta : MetricMove → OperatorMetrics
delta move = make_move move zero_metrics

abbrev pub total : List MetricMove → OperatorMetrics
total [] = zero_metrics
total (move ∷ rest) = plus (delta move) (total rest)

abbrev pub total_all : List (List MetricMove) → OperatorMetrics
total_all [] = zero_metrics
total_all (l ∷ ls) = plus (total l) (total_all ls)

pub plus_assoc : (m n o : OperatorMetrics) → plus (plus m n) o ≡ plus m (plus n o)
plus_assoc m n o = metrics_ext _ _ (omega arith) (omega arith) (omega int_laws)

pub make_move-delta :
    (move : MetricMove) (m : OperatorMetrics) → make_move move m ≡ plus m (delta move)
unfolding make_move
make_move-delta attached_inc m = metrics_ext _ _ (omega arith) (omega arith) (omega int_laws)
make_move-delta removed_inc m = metrics_ext _ _ (omega arith) (omega arith) (omega int_laws)
make_move-delta active_inc m = metrics_ext _ _ (omega arith) (omega arith) (omega int_laws)
make_move-delta active_dec m = metrics_ext _ _ (omega arith) (omega arith) (omega int_laws)

-- The first move of any goroutine may as well come first of all.
pub total_all-first :
    (before : List (List MetricMove)) (move : MetricMove) (rest : List MetricMove)
    (after : List (List MetricMove))
    → total_all (before ++ ((move ∷ rest) ∷ after))
      ≡ plus (delta move) (total_all (before ++ (rest ∷ after)))
total_all-first [] move rest after = plus_assoc (delta move) (total rest) (total_all after)
total_all-first (l ∷ ls) move rest after =
    ap (plus (total l)) (total_all-first ls move rest after)
    ∙ plus_left_comm (total l) (delta move) (total_all (ls ++ (rest ∷ after)))

module _ (s : Services) where
  total-attach_moves :
      (pod : Pod) (p : Profiler) (req : Request)
      → total (attach_moves pod (some p)) ≡ (attach s pod p req zero_metrics).0
  unfolding attach attach_moves make_move
  total-attach_moves pod p req = elim (Result-cases (build_profiler_sidecar p pod)) [
    | inl (c, built) ↦
        rw (built, attach, attach_moves)
          (metrics_ext _ _ (omega arith) (omega arith) (omega int_laws))
    | inr (e, failed) ↦ rw (failed, attach, attach_moves) refl
  ]

  total-found :
      (pod : Pod) (name : String) (ps : List Profiler) (req : Request)
      → total (attach_moves pod (find_profiler name ps)) ≡ (choose s pod name ps req zero_metrics).0
  unfolding attach_moves find_profiler
  total-found pod name [] req = refl
  total-found pod name (p ∷ ps) req = elim (Option-cases (find_profiler name (p ∷ ps))) [
    | inl nothing ↦ rw (nothing, choose) refl
    | inr (q, found) ↦ rw (found, choose) (total-attach_moves pod q req)
  ]

  total-enabled_moves :
      (pod : Pod) (req : Request)
      → total (enabled_moves s pod req) ≡ (handle_enabled s pod req zero_metrics).0
  unfolding enabled_moves handle_enabled
  total-enabled_moves pod req =
      elim (Option-cases (lookup annotation_profiler_name pod.annotations)) [
        | inl nothing ↦ rw (nothing, handle_enabled, enabled_moves) refl
        | inr (name, named) ↦ elim (Option-cases (s.list req.namespace)) [
          | inl nothing ↦ rw (named, handle_enabled, enabled_moves, nothing) refl
          | inr (l, listed) ↦
              rw (named, handle_enabled, enabled_moves, listed) (total-found pod name l.items req)
        ]
      ]

  total-pod_moves :
      (pod : Pod) (req : Request)
      → total (pod_moves s pod req) ≡ (handle_pod s pod req zero_metrics).0
  unfolding pod_moves handle_pod remove_sidecar_if_exists make_move
  total-pod_moves pod req = elim (Bool-cases (is_disabled pod)) [
    | inl off ↦ elim (Bool-cases (has_sidecar pod.containers sidecar_name)) [
      | inl there ↦ rw (off, there) (metrics_ext _ _ (omega arith) (omega arith) (omega int_laws))
      | inr absent ↦ rw (off, absent) refl
    ]
    | inr on ↦ rw on (total-enabled_moves pod req)
  ]

  total-moves-handle : (req : Request) → total (moves s req) ≡ (handle s req zero_metrics).0
  unfolding moves handle
  total-moves-handle req = elim (Option-cases s.decoder) [
    | inl nothing ↦ rw (nothing, handle, moves) refl
    | inr (decode, there) ↦ elim (Option-cases (decode req.raw)) [
      | inl unread ↦ rw (there, handle, moves, unread) refl
      | inr (pod, read) ↦ rw (there, handle, moves, read) (total-pod_moves pod req)
    ]
  ]

  -- The moves of a request are what handling it adds.
  pub total-moves : (req : Request) → total (moves s req) ≡ change s req
  unfolding change
  total-moves req = total-moves-handle req
