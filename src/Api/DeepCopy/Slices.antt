-- ===== src/Api/DeepCopy/Slices.antt =====
-- The copy of a slice, element by element.
use pprof_operator.Prelude.{◌≤◌, ◌≡◌, refl, some, List, [], ◌∷◌, length, All-append}
use pprof_operator.Api.Memory.{Heap, and_then, Action}
use pprof_operator.Api.DeepCopy.{copy_all}
use pprof_operator.Api.DeepCopy.Heaps.{Grows, Grows-refl, Grows-trans, and_then-some}
use pprof_operator.Api.DeepCopy.Copier.{View, Points, view_all, points_all, Copied, IsCopier}
use pprof_operator.Api.DeepCopy.Parts.{All-mono}

module _ {S B : Type 0} {view : View S B} {points : Points S} {copy : S → Action S}
    (c : IsCopier view points copy) where
  view_all-cons :
      (h : Heap) (s : S) (ss : List S) (bs : List B)
      → view_all view h (s ∷ ss) ≡ some bs
      → (v : B) × (vs : List B) × (view h s ≡ some v)
        × (view_all view h ss ≡ some vs)
        × (some (v ∷ vs) ≡ some bs)
  view_all-cons h s ss bs e =
      let (v, seen, rest) =
        and_then-some (view h s) (λ v. and_then (view_all view h ss) (λ vs. some (v ∷ vs))) bs e in
      let (vs, others, last) = and_then-some (view_all view h ss) (λ vs. some (v ∷ vs)) bs rest in
      (v, vs, seen, others, last)

  all_mono :
      (h h' : Heap) (ss : List S) (bs : List B)
      → view_all view h ss ≡ some bs
      → Grows h h'
      → (view_all view h' ss ≡ some bs) × (points_all points h' ss ≡ points_all points h ss)
  all_mono h h' [] bs e g = (e, refl)
  all_mono h h' (s ∷ ss) bs e g =
      let (v, vs, seen, others, last) = view_all-cons h s ss bs e in
      let m = c.mono h h' s v seen g in
      let ms = all_mono h h' ss vs others g in (rw (m.0) (rw (ms.0) last), rw (m.1, ms.1) refl)

  all-copies :
      (h : Heap) (ss : List S) (bs : List B)
      → view_all view h ss ≡ some bs
      → Copied (view_all view) (points_all points) (copy_all copy) h ss bs
  all-copies h [] bs e = record {
    out = [];
    heap = h;
    run = refl;
    grows = Grows-refl h;
    same = e;
    fresh = tt;
  }
  all-copies h (s ∷ ss) bs e =
      let (v, vs, seen, others, last) = view_all-cons h s ss bs e in
      let d = c.copies h s v seen in
      let before = all_mono h d.heap ss vs others d.grows in
      let ds = all-copies d.heap ss vs (before.0) in
      let after = c.mono d.heap ds.heap d.out v d.same ds.grows in
      record {
        out = d.out ∷ ds.out;
        heap = ds.heap;
        run = rw (d.run) (rw (ds.run) refl);
        grows = Grows-trans d.grows ds.grows;
        same = rw (after.0) (rw (ds.same) last);
        fresh = rw (after.1) (
            All-append (λ p. length h ≤ p) (points d.heap d.out) (points_all points ds.heap ds.out)
              d.fresh (All-mono (length h) (length d.heap) _ d.grows.longer ds.fresh));
      }

  pub all-IsCopier : IsCopier (view_all view) (points_all points) (copy_all copy)
  all-IsCopier = record { mono = all_mono; copies = all-copies }
