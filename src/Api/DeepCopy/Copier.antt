-- ===== src/Api/DeepCopy/Copier.antt =====
-- What makes a function a deep copy, and how deep copies are put together.
use pprof_operator.Prelude.{ℕ, ◌≤◌, ◌≡◌, refl, Option, none, some, List, [], ◌∷◌, ◌++◌, length, All}
use pprof_operator.Api.Memory.{Heap, Kind, and_then, Action, return, read}
use pprof_operator.Api.DeepCopy.Heaps.{Grows, Grows-refl}

-- What a stored structure stands for, where all its pointers can be followed.
abbrev pub View : Type 0 → Type 0 → Type 0
View S B = Heap → S → Option B

-- The pointers that can be reached from it.
abbrev pub Points : Type 0 → Type 0
Points S = Heap → S → List ℕ

module _ {S : Type 0} where
  abbrev pub points_pointer : Kind S → Points S → Points (Option ℕ)
  points_pointer k points h none = []
  points_pointer k points h (some p) = p ∷ elim (read k h p) [ none ↦ [] | some s ↦ points h s ]

  abbrev pub points_both : {T : Type 0} → Points S → Points T → Points (S × T)
  points_both points points' h (s, t) = points h s ++ points' h t

  abbrev pub points_all : Points S → Points (List S)
  points_all points h [] = []
  points_all points h (s ∷ ss) = points h s ++ points_all points h ss

module _ {S B : Type 0} where
  abbrev pub view_pointer : Kind S → View S B → View (Option ℕ) (Option B)
  view_pointer k view h none = some none
  view_pointer k view h (some p) =
      and_then (read k h p) (λ s. and_then (view h s) (λ b. some (some b)))

  abbrev pub view_both : {T C : Type 0} → View S B → View T C → View (S × T) (B × C)
  view_both view view' h (s, t) = and_then (view h s) (λ b. and_then (view' h t) (λ c. some (b, c)))

  abbrev pub view_all : View S B → View (List S) (List B)
  view_all view h [] = some []
  view_all view h (s ∷ ss) =
      and_then (view h s) (λ b. and_then (view_all view h ss) (λ bs. some (b ∷ bs)))

  -- A copy stands for the same, and can reach no cell of the heap before.
  pub record Copied (view : View S B) (points : Points S) (copy : S → Action S) (h : Heap) (s : S)
      (b : B) : Type 0 where
    pub out : S
    pub heap : Heap
    pub run : copy s h ≡ some (out, heap)
    pub grows : Grows h heap
    pub same : view heap out ≡ some b
    pub fresh : All (λ p. length h ≤ p) (points heap out)

  pub record IsCopier (view : View S B) (points : Points S) (copy : S → Action S) : Type 0 where
    pub mono :
        (h h' : Heap) (s : S) (b : B)
        → view h s ≡ some b
        → Grows h h'
        → (view h' s ≡ some b) × (points h' s ≡ points h s)
    pub copies : (h : Heap) (s : S) (b : B) → view h s ≡ some b → Copied view points copy h s b

-- A value without pointers.
pub value-IsCopier : {S : Type 0} → IsCopier {B = S} (λ h s. some s) (λ h s. []) return
value-IsCopier = record {
  mono = λ h h' s b e g. (e, refl);
  copies = λ h s b e. record {
    out = s;
    heap = h;
    run = refl;
    grows = Grows-refl h;
    same = e;
    fresh = tt;
  };
}
