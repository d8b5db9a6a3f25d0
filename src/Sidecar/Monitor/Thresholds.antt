-- ===== src/Sidecar/Monitor/Thresholds.antt =====
-- What more use, and a lower threshold, do to the schedule.
use mathlib.Core.List.{Sublistᴰ}
use pprof_operator.Prelude.{
  ℕ, ◌≤◌, ◌≡◌, refl, sym, Bool, true, false, List, [], ◌∷◌, ◌++◌, ok, err, arith,
}
use pprof_operator.Prelude.Int.{ℤ, pos, ◌≤ℤ◌}
use pprof_operator.Sidecar.Config.{Config}
use pprof_operator.Sidecar.Monitor.{Tick, Event, done, tick, State, reading, loop}
use pprof_operator.Sidecar.Monitor.Cooldown.{times}
use pprof_operator.Sidecar.Monitor.Schedule.{when, exceeding, memory_over, loop-heap_times}
use pprof_operator.Sidecar.Kubelet.{Floats, Quantities, KubeletError, ContainerStats, percentages}

-- The laws of `float64` that the comparison with a threshold rests on: `>=` is transitive, and the
-- conversion of integers, the division by a positive integer and the product with 100 keep it.
pub record IsOrdered (fl : Floats) : Type 0 where
  pub ge_trans : (a b c : fl.F) → fl.ge a b ≡ true → fl.ge b c ≡ true → fl.ge a c ≡ true
  pub of_int_mono : (m n : ℤ) → m ≤ℤ n → fl.ge (fl.of_int n) (fl.of_int m) ≡ true
  pub div_mono :
      (a b : fl.F) (n : ℤ)
      → pos 1 ≤ℤ n
      → fl.ge a b ≡ true
      → fl.ge (fl.div a (fl.of_int n)) (fl.div b (fl.of_int n)) ≡ true
  pub mul_mono :
      (a b : fl.F)
      → fl.ge a b ≡ true
      → fl.ge (fl.mul a (fl.of_int (pos 100))) (fl.mul b (fl.of_int (pos 100))) ≡ true

when-sublist :
    (b b' : Bool) (t t' : ℕ) {ts ts' : List ℕ}
    → t' ≡ t
    → (b ≡ true → b' ≡ true)
    → Sublistᴰ ts ts'
    → Sublistᴰ (when b t ++ ts) (when b' t' ++ ts')
when-sublist false false t t' e imp h = h
when-sublist false true t t' e imp h = Sublistᴰ.cons h
when-sublist true false t t' e imp h = absurd (cc (imp refl))
when-sublist true true t t' e imp h = Sublistᴰ.cons-cons (sym e) h

module _ (fl : Floats) (q : Quantities) (c : Config) where
  open fl use {F}

  -- Of two ticks at one time the second reads at least as much memory, over the same limit, or the
  -- first reads nothing.
  pub data IsBusier : Event → Event → Type 0 where
    ends : IsBusier done done
    unread :
        {t t' : Tick} {e : KubeletError}
        → t'.now ≡ t.now
        → reading fl q c t ≡ err e
        → IsBusier (tick t) (tick t')
    more :
        {t t' : Tick} (s s' : ContainerStats) (limits : ℤ × ℤ)
        → t'.now ≡ t.now
        → reading fl q c t ≡ ok (percentages fl s limits)
        → reading fl q c t' ≡ ok (percentages fl s' limits)
        → s.working_set_bytes ≤ s'.working_set_bytes
        → pos 1 ≤ℤ limits.1
        → IsBusier (tick t) (tick t')

  pub data AreBusier : List Event → List Event → Type 0 where
    nil : AreBusier [] []
    cons :
        {e e' : Event} {es es' : List Event}
        → IsBusier e e'
        → AreBusier es es'
        → AreBusier (e ∷ es) (e' ∷ es')

  module _ (laws : IsOrdered fl) (threshold : ℤ) (lower : threshold ≤ℤ c.memory_threshold) where
    abbrev pub lowered : Config
    lowered = record c { memory_threshold = threshold }

    memory_over_mono :
        (s s' : ContainerStats) (limits : ℤ × ℤ)
        → s.working_set_bytes ≤ s'.working_set_bytes
        → pos 1 ≤ℤ limits.1
        → memory_over fl q c (percentages fl s limits) ≡ true
        → memory_over fl q lowered (percentages fl s' limits) ≡ true
    unfolding percentages
    memory_over_mono s s' (cpu, memory) le positive over =
        laws.ge_trans _ _ _
          (laws.mul_mono _ _ (
            laws.div_mono _ _ memory positive (
              laws.of_int_mono (pos s.working_set_bytes) (pos s'.working_set_bytes) (omega arith))))
          (laws.ge_trans _ _ _ over (laws.of_int_mono threshold c.memory_threshold lower))

    exceeding_mono :
        {es es' : List Event}
        → AreBusier es es'
        → Sublistᴰ
            (exceeding fl q c (memory_over fl q c) es)
            (exceeding fl q lowered (memory_over fl q lowered) es')
    exceeding_mono nil = Sublistᴰ.slnil
    exceeding_mono (cons ends h) = Sublistᴰ.slnil
    exceeding_mono (cons (unread {t} {t'} now failed) h) =
        when-sublist _ _ _ _ now (λ over. cc (rw failed at over)) (exceeding_mono h)
    exceeding_mono (cons (more s s' limits now reads reads' le positive) h) =
        when-sublist _ _ _ _ now
          (λ over. rw reads' (memory_over_mono s s' limits le positive (rw reads at over)))
          (exceeding_mono h)

    -- Where `>=` on floats is transitive, and the conversion of integers, the division by a positive
    -- limit and the product with 100 keep it: if each tick of the second run comes at the time of
    -- one of the first, in order, and reads at least as much memory over the same positive limit or
    -- stands against one that read nothing, and the threshold is at most as high, then the times of
    -- the heap profiles of the first run are among those of the second, in order.
    pub loop-heap_mono :
        {es es' : List Event}
        → AreBusier es es'
        → (s s' : State F)
        → Sublistᴰ (times "heap" (loop fl q c es s).1) (times "heap" (loop fl q lowered es' s').1)
    loop-heap_mono h s s' =
        rw (loop-heap_times fl q c _ s, loop-heap_times fl q lowered _ s') (exceeding_mono h)
