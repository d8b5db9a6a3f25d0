-- ===== src/Api/DeepCopy/Parts.antt =====
-- The copy of a structure, part by part.
use pprof_operator.Prelude.{
  ℕ, ◌≤◌, ◌≡◌, refl, ◌∙◌, ap, some, List, [], ◌∷◌, length, All, All-append, arith,
}
use pprof_operator.Api.Memory.{Heap, and_then, Action, return, ◌>>=◌}
use pprof_operator.Api.DeepCopy.{copy_both}
use pprof_operator.Api.DeepCopy.Heaps.{Grows, Grows-trans, and_then-some}
use pprof_operator.Api.DeepCopy.Copier.{View, Points, view_both, points_both, Copied, IsCopier}

pub All-mono : (m n : ℕ) (ps : List ℕ) → m ≤ n → All (λ p. n ≤ p) ps → All (λ p. m ≤ p) ps
All-mono m n [] le h = tt
All-mono m n (p ∷ ps) le (h, hs) = (omega arith, All-mono m n ps le hs)

-- A structure with a part `get s`; what it stands for is made from the structure and from what the
-- part stands for.
module _ {S A B T : Type 0} {view : View A B} {points : Points A} {copy : A → Action A}
    (c : IsCopier view points copy) (get : S → A) (set : A → S → S) (make : S → B → T)
    (get-set : (a : A) (s : S) → get (set a s) ≡ a)
    (make-set : (a : A) (s : S) (b : B) → make (set a s) b ≡ make s b) where
  abbrev pub view_part : View S T
  view_part h s = and_then (view h (get s)) (λ b. some (make s b))

  abbrev pub points_part : Points S
  points_part h s = points h (get s)

  abbrev pub copy_part : S → Action S
  copy_part s = copy (get s) >>= λ a. return (set a s)

  part_mono :
      (h h' : Heap) (s : S) (t : T)
      → view_part h s ≡ some t
      → Grows h h'
      → (view_part h' s ≡ some t) × (points_part h' s ≡ points_part h s)
  part_mono h h' s t e g =
      let (b, seen, last) = and_then-some (view h (get s)) (λ b. some (make s b)) t e in
      let m = c.mono h h' (get s) b seen g in (rw (m.0) last, m.1)

  part-copies :
      (h : Heap) (s : S) (t : T)
      → view_part h s ≡ some t
      → Copied view_part points_part copy_part h s t
  part-copies h s t e =
      let (b, seen, last) = and_then-some (view h (get s)) (λ b. some (make s b)) t e in
      let d = c.copies h (get s) b seen in
      record {
        out = set d.out s;
        heap = d.heap;
        run = rw (d.run) refl;
        grows = d.grows;
        same = rw (get-set d.out s, d.same) (ap some (make-set d.out s b) ∙ last);
        fresh = rw (get-set d.out s) d.fresh;
      }

  pub part-IsCopier : IsCopier view_part points_part copy_part
  part-IsCopier = record { mono = part_mono; copies = part-copies }

module _ {S B T C : Type 0} {view : View S B} {points : Points S} {copy : S → Action S}
    {view' : View T C} {points' : Points T} {copy' : T → Action T} (c : IsCopier view points copy)
    (c' : IsCopier view' points' copy') where
  both_mono :
      (h h' : Heap) (s : S × T) (b : B × C)
      → view_both view view' h s ≡ some b
      → Grows h h'
      → (view_both view view' h' s ≡ some b)
        × (points_both points points' h' s ≡ points_both points points' h s)
  both_mono h h' (s, t) b e g =
      let (u, seen, rest) =
        and_then-some (view h s) (λ u. and_then (view' h t) (λ v. some (u, v))) b e in
      let (v, seen', last) = and_then-some (view' h t) (λ v. some (u, v)) b rest in
      let m = c.mono h h' s u seen g in
      let m' = c'.mono h h' t v seen' g in (rw (m.0) (rw (m'.0) last), rw (m.1, m'.1) refl)

  both-copies :
      (h : Heap) (s : S × T) (b : B × C)
      → view_both view view' h s ≡ some b
      → Copied (view_both view view') (points_both points points') (copy_both copy copy') h s b
  both-copies h (s, t) b e =
      let (u, seen, rest) =
        and_then-some (view h s) (λ u. and_then (view' h t) (λ v. some (u, v))) b e in
      let (v, seen', last) = and_then-some (view' h t) (λ v. some (u, v)) b rest in
      let d = c.copies h s u seen in
      let before = c'.mono h d.heap t v seen' d.grows in
      let d' = c'.copies d.heap t v (before.0) in
      let after = c.mono d.heap d'.heap d.out u d.same d'.grows in
      record {
        out = (d.out, d'.out);
        heap = d'.heap;
        run = rw (d.run) (rw (d'.run) refl);
        grows = Grows-trans d.grows d'.grows;
        same = rw (after.0) (rw (d'.same) last);
        fresh = rw (after.1) (
            All-append (λ p. length h ≤ p) (points d.heap d.out) (points' d'.heap d'.out) d.fresh
              (All-mono (length h) (length d.heap) _ d.grows.longer d'.fresh));
      }

  pub both-IsCopier :
      IsCopier (view_both view view') (points_both points points') (copy_both copy copy')
  both-IsCopier = record { mono = both_mono; copies = both-copies }
