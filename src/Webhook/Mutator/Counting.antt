-- ===== src/Webhook/Mutator/Counting.antt =====
-- The operator's metrics against the responses that it gave.
use pprof_operator.Prelude.{
  ℕ, suc, ◌+◌, ◌≡◌, refl, ◌≢◌, if◌then◌else◌, Bool, true, false, Option, none, some, List, [], ◌∷◌,
  String, lookup, arith, Bool-cases, Option-cases, inl, inr, Result-cases,
}
use pprof_operator.Prelude.Int.{pos, ◌+ℤ◌, ◌-ℤ◌, int_laws}
use pprof_operator.Api.{Profiler}
use pprof_operator.Kube.{Pod}
use pprof_operator.Webhook.Annotations.{annotation_profiler_name}
use pprof_operator.Webhook.Settings.{has_sidecar}
use pprof_operator.Webhook.Builder.{build_profiler_sidecar}
use pprof_operator.Webhook.Mutator.{
  OperatorMetrics, Services, Request, Response, patched, errored, sidecar_name, choose,
  find_profiler, is_disabled, respond, remove_sidecar_if_exists, attach, handle_enabled, handle_pod,
  handle, handle_all, marshal_failed,
}

abbrev pub is_patch : Response → Bool
is_patch (patched raw text) = true
is_patch _ = false

abbrev pub count_patches : List Response → ℕ
count_patches [] = 0
count_patches (r ∷ rs) = if is_patch r then suc (count_patches rs) else count_patches rs

-- The gauge of active sidecars is what was attached less what was removed.
abbrev pub IsBalanced : OperatorMetrics → Type 0
IsBalanced m = m.active_sidecars ≡ pos m.sidecars_attached -ℤ pos m.sidecars_removed

module _ (s : Services) where
  -- An answer that is given after the metrics have moved.
  abbrev IsLate : Response → Type 0
  IsLate r = (req : Request) × (pod : Pod) × (r ≡ respond s req pod)

  -- The ways in which one request moves the metrics.
  data Move (m m' : OperatorMetrics) (r : Response) : Type 0 where
    still : m' ≡ m → is_patch r ≡ false → Move m m' r
    added :
        m'.sidecars_attached ≡ m.sidecars_attached + 1
        → m'.sidecars_removed ≡ m.sidecars_removed
        → m'.active_sidecars ≡ m.active_sidecars +ℤ pos 1
        → IsLate r
        → Move m m' r
    removed :
        m'.sidecars_attached ≡ m.sidecars_attached
        → m'.sidecars_removed ≡ m.sidecars_removed + 1
        → m'.active_sidecars ≡ m.active_sidecars -ℤ pos 1
        → IsLate r
        → Move m m' r

  late : (req : Request) (pod : Pod) → IsLate (respond s req pod)
  late req pod = (req, pod, refl)

  abbrev Moves : OperatorMetrics → OperatorMetrics × Response → Type 0
  Moves m t = Move m t.0 t.1

  remove-Moves :
      (pod : Pod) (req : Request) (m : OperatorMetrics)
      → Moves m (remove_sidecar_if_exists s pod req m)
  unfolding remove_sidecar_if_exists
  remove-Moves pod req m = elim (Bool-cases (has_sidecar pod.containers sidecar_name)) [
    | inl there ↦ rw there (removed refl refl refl (late req _))
    | inr absent ↦ rw absent (still refl refl)
  ]

  attach-Moves :
      (pod : Pod) (p : Profiler) (req : Request) (m : OperatorMetrics)
      → Moves m (attach s pod p req m)
  unfolding attach
  attach-Moves pod p req m = elim (Result-cases (build_profiler_sidecar p pod)) [
    | inl (c, built) ↦ rw (built, attach) (added refl refl refl (late req _))
    | inr (e, failed) ↦ rw (failed, attach) (still refl refl)
  ]

  choose-Moves :
      (pod : Pod) (name : String) (ps : List Profiler) (req : Request) (m : OperatorMetrics)
      → Moves m (choose s pod name ps req m)
  choose-Moves pod name [] req m = still refl refl
  choose-Moves pod name (p ∷ ps) req m = elim (Option-cases (find_profiler name (p ∷ ps))) [
    | inl nothing ↦ rw (nothing, choose) (still refl refl)
    | inr (q, found) ↦ rw (found, choose) (attach-Moves pod q req m)
  ]

  handle_enabled-Moves :
      (pod : Pod) (req : Request) (m : OperatorMetrics) → Moves m (handle_enabled s pod req m)
  unfolding handle_enabled
  handle_enabled-Moves pod req m =
      elim (Option-cases (lookup annotation_profiler_name pod.annotations)) [
        | inl nothing ↦ rw (nothing, handle_enabled) (still refl refl)
        | inr (name, named) ↦ elim (Option-cases (s.list req.namespace)) [
          | inl nothing ↦ rw (named, handle_enabled, nothing) (still refl refl)
          | inr (l, listed) ↦
              rw (named, handle_enabled, listed) (choose-Moves pod name l.items req m)
        ]
      ]

  handle_pod-Moves :
      (pod : Pod) (req : Request) (m : OperatorMetrics) → Moves m (handle_pod s pod req m)
  unfolding handle_pod
  handle_pod-Moves pod req m = elim (Bool-cases (is_disabled pod)) [
    | inl off ↦ elim (Bool-cases (has_sidecar pod.containers sidecar_name)) [
      | inl there ↦ rw (off, there) (remove-Moves pod req m)
      | inr absent ↦ rw (off, absent) (still refl refl)
    ]
    | inr on ↦ rw on (handle_enabled-Moves pod req m)
  ]

  handle_of_pod :
      (req : Request) (m : OperatorMetrics) (decode : String → Option Pod) (pod : Pod)
      → s.decoder ≡ some decode
      → decode req.raw ≡ some pod
      → handle s req m ≡ handle_pod s pod req m
  unfolding handle
  handle_of_pod req m decode pod h k = ground arith

  handle-Moves : (req : Request) (m : OperatorMetrics) → Moves m (handle s req m)
  unfolding handle
  handle-Moves req m = elim (Option-cases s.decoder) [
    | inl nothing ↦ rw (nothing, handle) (still refl refl)
    | inr (decode, there) ↦ elim (Option-cases (decode req.raw)) [
      | inl unread ↦ still (ground arith) (ground arith)
      | inr (pod, found) ↦
          rw (handle_of_pod req m decode pod there found) (handle_pod-Moves pod req m)
    ]
  ]

  Move-IsBalanced :
      {m m' : OperatorMetrics} {r : Response} → Move m m' r → IsBalanced m → IsBalanced m'
  Move-IsBalanced (still e _) b = rw e b
  Move-IsBalanced (added a d g _) b = rw (a, d, g, b) (omega int_laws)
  Move-IsBalanced (removed a d g _) b = rw (a, d, g, b) (omega int_laws)

  -- After any requests, on every path through the handler, the gauge of active sidecars is the
  -- number of sidecars attached less the number removed, if it was so before.
  pub handle_all-IsBalanced :
      (rs : List Request) (m : OperatorMetrics) → IsBalanced m → IsBalanced (handle_all s rs m).0
  unfolding handle_all
  handle_all-IsBalanced [] m b = b
  handle_all-IsBalanced (r ∷ rs) m b =
      handle_all-IsBalanced rs (handle s r m).0 (Move-IsBalanced (handle-Moves r m) b)

  Move-still :
      {m m' : OperatorMetrics} {r : Response}
      → Move m m' r
      → is_patch r ≡ false
      → r ≢ errored 500 marshal_failed
      → m' ≡ m
  unfolding respond
  Move-still (still e _) h k = e
  Move-still (added a d g (req, pod, e)) h k = absurd (ground arith)
  Move-still (removed a d g (req, pod, e)) h k = absurd (ground arith)

  -- A request that is refused or admitted unchanged leaves the metrics as they were, unless the
  -- pod could not be printed.
  pub handle-metrics_of_unpatched :
      (req : Request) (m : OperatorMetrics)
      → is_patch (handle s req m).1 ≡ false
      → (handle s req m).1 ≢ errored 500 marshal_failed
      → (handle s req m).0 ≡ m
  handle-metrics_of_unpatched req m h k = Move-still (handle-Moves req m) h k

  module _ (prints : (pod : Pod) → s.marshal pod ≢ none) where
    IsLate-is_patch : {r : Response} → IsLate r → is_patch r ≡ true
    unfolding respond
    IsLate-is_patch (req, pod, e) = elim (Option-cases (s.marshal pod)) [
      | inl nothing ↦ absurd (prints pod nothing)
      | inr (text, marshaled) ↦ ground arith
    ]

    Move-counts :
        {m m' : OperatorMetrics} {r : Response}
        → Move m m' r
        → m'.sidecars_attached + m'.sidecars_removed
          ≡ m.sidecars_attached + m.sidecars_removed + (if is_patch r then 1 else 0)
    Move-counts (still e n) = rw (e, n) (omega arith)
    Move-counts (added a d g l) = rw (a, d, IsLate-is_patch l) (omega arith)
    Move-counts (removed a d g l) = rw (a, d, IsLate-is_patch l) (omega arith)

    -- Where every pod can be printed, the two counters together count the patches.
    pub handle_all-counts_patches :
        (rs : List Request) (m : OperatorMetrics)
        → let t = handle_all s rs m in
          t.0.sidecars_attached + t.0.sidecars_removed
          ≡ m.sidecars_attached + m.sidecars_removed + count_patches t.1
    unfolding handle_all
    handle_all-counts_patches [] m = omega arith
    handle_all-counts_patches (r ∷ rs) m =
        ground
          (arith, handle_all-counts_patches rs (handle s r m).0, Move-counts (handle-Moves r m))
