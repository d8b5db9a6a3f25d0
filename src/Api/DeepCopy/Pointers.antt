-- ===== src/Api/DeepCopy/Pointers.antt =====
-- The copy of what a pointer points to.
use pprof_operator.Prelude.{ℕ, ◌≡◌, refl, ap, Option, none, some, [], ◌∷◌, ◌++◌, length}
use pprof_operator.Api.Memory.{Heap, Kind, and_then, Action, read}
use pprof_operator.Api.DeepCopy.{copy_pointer}
use pprof_operator.Api.DeepCopy.Heaps.{
  Grows, Grows-refl, Grows-trans, Grows-new, and_then-some, read-Grows, read-new,
}
use pprof_operator.Api.DeepCopy.Copier.{
  View, Points, view_pointer, points_pointer, Copied, IsCopier,
}

module _ {S B : Type 0} {view : View S B} {points : Points S} {copy : S → Action S} (k : Kind S)
    (c : IsCopier view points copy) where
  view_pointer-some :
      (h : Heap) (p : ℕ) (b : Option B)
      → view_pointer k view h (some p) ≡ some b
      → (s : S) × (v : B) × (read k h p ≡ some s) × (view h s ≡ some v) × (some v ≡ b)
  view_pointer-some h p b e =
      let (s, found, rest) =
        and_then-some (read k h p) (λ s. and_then (view h s) (λ v. some (some v))) b e in
      let (v, seen, last) = and_then-some (view h s) (λ v. some (some v)) b rest in
      (s, v, found, seen, cc last)

  pointer_mono :
      (h h' : Heap) (o : Option ℕ) (b : Option B)
      → view_pointer k view h o ≡ some b
      → Grows h h'
      → (view_pointer k view h' o ≡ some b)
        × (points_pointer k points h' o ≡ points_pointer k points h o)
  pointer_mono h h' none b e g = (e, refl)
  pointer_mono h h' (some p) b e g =
      let (s, v, found, seen, last) = view_pointer-some h p b e in
      let m = c.mono h h' s v seen g in
      (
        rw (read-Grows k p s g found) (rw (m.0) (ap some last)),
        rw (read-Grows k p s g found, found) (ap (λ ps. p ∷ ps) m.1),
      )

  pointer-copies :
      (h : Heap) (o : Option ℕ) (b : Option B)
      → view_pointer k view h o ≡ some b
      → Copied (view_pointer k view) (points_pointer k points) (copy_pointer k copy) h o b
  pointer-copies h none b e = record {
    out = none;
    heap = h;
    run = refl;
    grows = Grows-refl h;
    same = e;
    fresh = tt;
  }
  pointer-copies h (some p) b e =
      let (s, v, found, seen, last) = view_pointer-some h p b e in
      let d = c.copies h s v seen in
      let grown = Grows-new d.heap (k.wrap d.out) in
      let m = c.mono d.heap (d.heap ++ (k.wrap d.out ∷ [])) d.out v d.same grown in
      record {
        out = some (length d.heap);
        heap = d.heap ++ (k.wrap d.out ∷ []);
        run = rw (found) (rw (d.run) refl);
        grows = Grows-trans d.grows grown;
        same = rw (read-new k d.heap d.out) (rw (m.0) (ap some last));
        fresh = (d.grows.longer, rw (read-new k d.heap d.out, m.1) d.fresh);
      }

  pub pointer-IsCopier :
      IsCopier (view_pointer k view) (points_pointer k points) (copy_pointer k copy)
  pointer-IsCopier = record { mono = pointer_mono; copies = pointer-copies }
