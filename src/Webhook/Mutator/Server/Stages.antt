-- ===== src/Webhook/Mutator/Server/Stages.antt =====
-- Where a goroutine of the handler stands, and how far the gauge may lag behind it.
use pprof_operator.Prelude.{
  ℕ, ◌+◌, ◌≡◌, refl, List, [], ◌∷◌, arith, All, lookup, Option, none, some, Bool-cases,
  Option-cases, Result-cases, inl, inr,
}
use pprof_operator.Prelude.Int.{pos, ◌+ℤ◌, ◌-ℤ◌, ◌≤ℤ◌, int_laws}
use pprof_operator.Api.{Profiler}
use pprof_operator.Kube.{Pod}
use pprof_operator.Webhook.Annotations.{annotation_profiler_name}
use pprof_operator.Webhook.Settings.{has_sidecar}
use pprof_operator.Webhook.Builder.{build_profiler_sidecar}
use pprof_operator.Webhook.Mutator.{
  OperatorMetrics, Services, Request, find_profiler, is_disabled, sidecar_name,
}
use pprof_operator.Webhook.Mutator.Order.{plus}
use pprof_operator.Webhook.Mutator.Server.{
  MetricMove, attached_inc, removed_inc, active_inc, active_dec, make_move, attach_moves,
  enabled_moves, pod_moves, moves,
}
use pprof_operator.Webhook.Mutator.Server.Interleaving.{total, total_all}

-- Where a goroutine stands.
pub data Stage : Type 0 where
  to_attach attached to_remove removed finished : Stage

abbrev pub rest_of : Stage → List MetricMove
rest_of to_attach = attached_inc ∷ active_inc ∷ []
rest_of attached = active_inc ∷ []
rest_of to_remove = removed_inc ∷ active_dec ∷ []
rest_of removed = active_dec ∷ []
rest_of finished = []

abbrev pub IsRest : List MetricMove → Type 0
IsRest l = (g : Stage) × (l ≡ rest_of g)

pub IsRest-tail : (move : MetricMove) (rest : List MetricMove) → IsRest (move ∷ rest) → IsRest rest
IsRest-tail move rest (to_attach, e) = (attached, ground (arith, e))
IsRest-tail move rest (attached, e) = (finished, ground (arith, e))
IsRest-tail move rest (to_remove, e) = (removed, ground (arith, e))
IsRest-tail move rest (removed, e) = (finished, ground (arith, e))
IsRest-tail move rest (finished, e) = absurd (ground (arith, e))

-- The goroutines that have begun and not ended.
abbrev pub unfinished : List (List MetricMove) → ℕ
unfinished [] = 0
unfinished ([] ∷ ls) = unfinished ls
unfinished ((move ∷ rest) ∷ ls) = unfinished ls + 1

-- The gauge differs from what was attached less what was removed by at most `k`.
pub record IsWithin (k : ℕ) (m : OperatorMetrics) : Type 0 where
  pub above : m.active_sidecars +ℤ pos m.sidecars_removed ≤ℤ pos (m.sidecars_attached + k)
  pub below : pos m.sidecars_attached ≤ℤ m.active_sidecars +ℤ pos (m.sidecars_removed + k)

IsWithin-plus :
    (j k : ℕ) (m n : OperatorMetrics) → IsWithin j m → IsWithin k n → IsWithin (j + k) (plus m n)
IsWithin-plus j k m n a b = record {
  above = omega (int_laws, a.above, b.above);
  below = omega (int_laws, a.below, b.below);
}

total-IsWithin : (g : Stage) → IsWithin (unfinished (rest_of g ∷ [])) (total (rest_of g))
unfolding make_move ◌+ℤ◌ ◌-ℤ◌
total-IsWithin to_attach = record { above = omega arith; below = omega arith }
total-IsWithin attached = record { above = omega arith; below = omega arith }
total-IsWithin to_remove = record { above = omega arith; below = omega arith }
total-IsWithin removed = record { above = omega arith; below = omega arith }
total-IsWithin finished = record { above = omega arith; below = omega arith }

unfinished-cons :
    (l : List MetricMove) (ls : List (List MetricMove))
    → unfinished (l ∷ ls) ≡ unfinished (l ∷ []) + unfinished ls
unfinished-cons [] ls = omega arith
unfinished-cons (move ∷ rest) ls = omega arith

pub total_all-IsWithin :
    (ls : List (List MetricMove)) → All IsRest ls → IsWithin (unfinished ls) (total_all ls)
unfolding ◌+ℤ◌
total_all-IsWithin [] h = record { above = omega arith; below = omega arith }
total_all-IsWithin (l ∷ ls) ((g, e), h) =
    rw (unfinished-cons l ls, e)
      (IsWithin-plus _ _ _ _ (total-IsWithin g) (total_all-IsWithin ls h))

module _ (s : Services) where
  attach_moves-IsRest : (pod : Pod) (p : Option Profiler) → IsRest (attach_moves pod p)
  unfolding attach_moves
  attach_moves-IsRest pod none = (finished, refl)
  attach_moves-IsRest pod (some p) = elim (Result-cases (build_profiler_sidecar p pod)) [
    | inl (c, built) ↦ (to_attach, rw (built, attach_moves) refl)
    | inr (e, failed) ↦ (finished, rw (failed, attach_moves) refl)
  ]

  enabled_moves-IsRest : (pod : Pod) (req : Request) → IsRest (enabled_moves s pod req)
  unfolding enabled_moves
  enabled_moves-IsRest pod req =
      elim (Option-cases (lookup annotation_profiler_name pod.annotations)) [
        | inl nothing ↦ rw (nothing, enabled_moves) (finished, refl)
        | inr (name, named) ↦ elim (Option-cases (s.list req.namespace)) [
          | inl nothing ↦ rw (named, enabled_moves, nothing) (finished, refl)
          | inr (l, listed) ↦
              rw (named, enabled_moves, listed)
                (attach_moves-IsRest pod (find_profiler name l.items))
        ]
      ]

  pod_moves-IsRest : (pod : Pod) (req : Request) → IsRest (pod_moves s pod req)
  unfolding pod_moves
  pod_moves-IsRest pod req = elim (Bool-cases (is_disabled pod)) [
    | inl off ↦ elim (Bool-cases (has_sidecar pod.containers sidecar_name)) [
      | inl there ↦ rw (off, there) (to_remove, refl)
      | inr absent ↦ rw (off, absent) (finished, refl)
    ]
    | inr on ↦ rw on (enabled_moves-IsRest pod req)
  ]

  pub moves-IsRest : (req : Request) → IsRest (moves s req)
  unfolding moves
  moves-IsRest req = elim (Option-cases s.decoder) [
    | inl nothing ↦ rw (nothing, moves) (finished, refl)
    | inr (decode, there) ↦ elim (Option-cases (decode req.raw)) [
      | inl unread ↦ rw (there, moves, unread) (finished, refl)
      | inr (pod, read) ↦ rw (there, moves, read) (pod_moves-IsRest pod req)
    ]
  ]
