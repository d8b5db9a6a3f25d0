-- ===== src/Text/Trim.antt =====
-- What `TrimSpace` leaves.
use Prim.Native.Char.{code}
use pprof_operator.Prelude.{
  ◌≡◌, refl, ◌∙◌, ap, false, inl, inr, String, ◌==◌, arith, Bool-cases, ◌&&◌,
}
use pprof_operator.Text.{is_space, trim_left, trim_right, trim_space}

trim_space_tests : trim_space " \t x y\n" ≡ "x y"
unfolding trim_space
trim_space_tests = refl

-- The text does not begin with white space.
abbrev pub IsTight : String → Type 0
IsTight String.[] = Unit
IsTight (String.◌∷◌ c s) = is_space (code c) ≡ false

trim_left-IsTight : (s : String) → IsTight (trim_left s)
unfolding trim_left
trim_left-IsTight String.[] = tt
trim_left-IsTight (String.◌∷◌ c s) = ground (arith, trim_left-IsTight s)

trim_left_of_IsTight : (s : String) → IsTight s → trim_left s ≡ s
unfolding trim_left
trim_left_of_IsTight String.[] h = refl
trim_left_of_IsTight (String.◌∷◌ c s) h = ground arith

trim_right-IsTight : (s : String) → IsTight s → IsTight (trim_right s)
unfolding trim_right
trim_right-IsTight String.[] h = tt
trim_right-IsTight (String.◌∷◌ c s) h =
    elim (Bool-cases (is_space (code c) && trim_right s == "")) [
      | inl blank ↦ rw blank tt
      | inr kept ↦ rw kept h
    ]

trim_right_idem : (s : String) → trim_right (trim_right s) ≡ trim_right s
unfolding trim_right
trim_right_idem String.[] = refl
trim_right_idem (String.◌∷◌ c s) = elim (Bool-cases (is_space (code c) && trim_right s == "")) [
  | inl blank ↦ rw blank
  | inr kept ↦ rw (kept, trim_right_idem s, kept)
]

-- Trimming a second time changes nothing.
pub trim_space_idem : (s : String) → trim_space (trim_space s) ≡ trim_space s
unfolding trim_space
trim_space_idem s =
    ap trim_right (trim_left_of_IsTight _ (trim_right-IsTight _ (trim_left-IsTight s)))
    ∙ trim_right_idem (trim_left s)
