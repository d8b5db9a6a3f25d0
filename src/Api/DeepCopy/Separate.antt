-- ===== src/Api/DeepCopy/Separate.antt =====
-- A deep copy is a value of its own.
use pprof_operator.Prelude.{
  set, ℕ, ◌≤◌, ◌≡◌, refl, Option, some, List, [], ◌∷◌, length, All, none, Option-cases, inl, inr,
}
use pprof_operator.Api.{Profiler, ProfilerStatus}
use pprof_operator.Api.Memory.{Cell, Heap, Action, ◌>>=◌, profiler_cells, lists}
use pprof_operator.Api.DeepCopy.{
  as_object, profiler_deep_copy, profiler_list_deep_copy, profiler_deep_copy_object,
  profiler_list_deep_copy_object,
}
use pprof_operator.Api.DeepCopy.Heaps.{Grows, Grows-set}
use pprof_operator.Api.DeepCopy.Copier.{View, Points, view_pointer, points_pointer, IsCopier}
use pprof_operator.Api.DeepCopy.Pointers.{pointer-IsCopier}
use pprof_operator.Api.DeepCopy.Views.{
  view_profiler, points_profiler, profiler-IsCopier, view_list, points_list, list-IsCopier,
}

-- The heap has grown behind its old cells. The copy stands for the same value, the original stands for it still, and goes on to whatever
-- is written through a pointer that can be reached from the copy.
pub record IsSeparate {S B : Type 0} (view : View S B) (points : Points S) (h : Heap) (s : S)
    (b : B) (result : Option (S × Heap)) : Type 0 where
  pub out : S
  pub heap : Heap
  pub returned : result ≡ some (out, heap)
  pub grows : Grows h heap
  pub same : view heap out ≡ some b
  pub kept : view heap s ≡ some b
  pub unaffected : All (λ p. (c : Cell) → view (set heap p c) s ≡ some b) (points heap out)

module _ {S B : Type 0} {view : View S B} {points : Points S} {copy : S → Action S}
    (c : IsCopier view points copy) where
  unaffected_by :
      (h h' : Heap) (s : S) (b : B) (ps : List ℕ)
      → view h s ≡ some b
      → Grows h h'
      → All (λ p. length h ≤ p) ps
      → All (λ p. (d : Cell) → view (set h' p d) s ≡ some b) ps
  unaffected_by h h' s b [] e g far = tt
  unaffected_by h h' s b (p ∷ ps) e g (far, fars) = (
    λ d. (c.mono h (set h' p d) s b e (Grows-set p d far g)).0,
    unaffected_by h h' s b ps e g fars,
  )

  separate :
      (h : Heap) (s : S) (b : B) → view h s ≡ some b → IsSeparate view points h s b (copy s h)
  separate h s b e =
      let d = c.copies h s b e in
      record {
        out = d.out;
        heap = d.heap;
        returned = d.run;
        grows = d.grows;
        same = d.same;
        kept = (c.mono h d.heap s b e d.grows).0;
        unaffected = unaffected_by h d.heap s b (points d.heap d.out) e d.grows d.fresh;
      }

as_object_lem : (m : Action (Option ℕ)) (h : Heap) → (m >>= as_object) h ≡ m h
as_object_lem m h = elim (Option-cases (m h)) [
  | inl failed ↦ rw failed refl
  | inr ((none, h'), e) ↦ rw e refl
  | inr ((some p, h'), e) ↦ rw e refl
]

-- The deep copy of a list of profilers, where all its pointers can be followed, or of no list,
-- always returns and leaves every cell of the heap. What it returns stands for the same list, down to the thresholds, the credentials
-- and the records of the status; the original stands for it still, and goes on to, whatever is
-- written through any pointer that can be reached from the copy.
pub profiler_list_deep_copy_object-IsSeparate :
    (h : Heap) (p : Option ℕ) (b : Option (Option (List (Profiler × ProfilerStatus))))
    → view_pointer lists view_list h p ≡ some b
    → IsSeparate
        (view_pointer lists view_list)
        (points_pointer lists points_list)
        h
        p
        b
        (profiler_list_deep_copy_object p h)
unfolding profiler_list_deep_copy_object
profiler_list_deep_copy_object-IsSeparate h p b e =
    rw (as_object_lem (profiler_list_deep_copy p) h)
      (separate (pointer-IsCopier lists list-IsCopier) h p b e)

-- The same of one profiler.
pub profiler_deep_copy_object-IsSeparate :
    (h : Heap) (p : Option ℕ) (b : Option (Profiler × ProfilerStatus))
    → view_pointer profiler_cells view_profiler h p ≡ some b
    → IsSeparate
        (view_pointer profiler_cells view_profiler)
        (points_pointer profiler_cells points_profiler)
        h
        p
        b
        (profiler_deep_copy_object p h)
unfolding profiler_deep_copy_object
profiler_deep_copy_object-IsSeparate h p b e =
    rw (as_object_lem (profiler_deep_copy p) h)
      (separate (pointer-IsCopier profiler_cells profiler-IsCopier) h p b e)
