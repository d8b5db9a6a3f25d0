-- ===== src/Text/Decimal.antt =====
-- Integers as text: `fmt.Sprintf("%d", n)` and `strconv.Atoi`, with `int` of 64 bits.
pub mod RoundTrip
pub mod Shape
use Prim.Native.Char.{Char, code}
use pprof_operator.Prelude.{
  ℕ, zero, suc, ◌+◌, ◌-◌, ◌*◌, ◌/◌, ◌%◌, ◌^◌, ◌≡◌, refl, Bool, true, false, ◌&&◌, ◌||◌, Option,
  none, some, String, ◌<>◌, ltb, leb, eqb, if◌then◌else◌,
}
use pprof_operator.Prelude.Int.{ℤ, pos, negsuc}

unfoldable pub digit : ℕ → String
digit zero = "0"
digit (suc zero) = "1"
digit (suc (suc zero)) = "2"
digit (suc (suc (suc zero))) = "3"
digit (suc (suc (suc (suc zero)))) = "4"
digit (suc (suc (suc (suc (suc zero))))) = "5"
digit (suc (suc (suc (suc (suc (suc zero)))))) = "6"
digit (suc (suc (suc (suc (suc (suc (suc zero))))))) = "7"
digit (suc (suc (suc (suc (suc (suc (suc (suc zero)))))))) = "8"
digit _ = "9"

-- The digits of `n`, with fuel: more than `n` is enough.
unfoldable pub digits : ℕ → ℕ → String
unfolding digit
digits zero n = ""
digits (suc f) n = elim (ltb n 10) [ true ↦ digit n | false ↦ digits f (n / 10) <> digit (n % 10) ]

-- `fmt.Sprintf("%d", n)`.
unfoldable pub itoa : ℤ → String
unfolding digits
itoa (pos n) = digits (suc n) n
itoa (negsuc n) = "-" <> digits (suc (suc n)) (suc n)

-- The digits of a text, behind the number `n` that was read so far.
unfoldable pub scan : String → ℕ → Option ℕ
scan String.[] n = some n
scan (String.◌∷◌ c s) n =
    let rest = scan s (n * 10 + (code c - b'0')) in
    if leb b'0' (code c) && leb (code c) b'9' then rest else none

unfoldable pub scan_digits : String → Option ℕ
unfolding scan
scan_digits String.[] = none
scan_digits (String.◌∷◌ c s) = scan (String.◌∷◌ c s) 0

-- The range check of a 64-bit `int`.
abbrev pub positive : ℕ → Option ℤ
positive n = if ltb n (2 ^ 63) then some (pos n) else none

abbrev pub negative : ℕ → Option ℤ
negative zero = some (pos 0)
negative (suc n) = if ltb n (2 ^ 63) then some (negsuc n) else none

abbrev pub bind_option : Option ℕ → (ℕ → Option ℤ) → Option ℤ
bind_option none k = none
bind_option (some n) k = k n

-- `strconv.Atoi`: an optional sign, then one or more digits, and a value in range.
unfoldable pub atoi : String → Option ℤ
unfolding scan_digits
atoi String.[] = none
atoi (String.◌∷◌ c s) =
    if eqb (code c) b'-'
    then bind_option (scan_digits s) negative
    else if eqb (code c) b'+'
    then bind_option (scan_digits s) positive
    else bind_option (scan_digits (String.◌∷◌ c s)) positive

itoa_tests : (itoa (pos 8080) ≡ "8080") × (itoa (negsuc 41) ≡ "-42")
unfolding itoa
itoa_tests = (refl, refl)

atoi_tests :
    (atoi "-42" ≡ some (negsuc 41))
    × (atoi "+7" ≡ some (pos 7))
    × (atoi "007" ≡ some (pos 7))
    × (atoi "" ≡ none)
    × (atoi "-" ≡ none)
    × (atoi "8 " ≡ none)
    × (atoi "9223372036854775807" ≡ some (pos 9223372036854775807))
    × (atoi "9223372036854775808" ≡ none)
    × (atoi "-9223372036854775808" ≡ some (negsuc 9223372036854775807))
unfolding atoi
atoi_tests = (refl, refl, refl, refl, refl, refl, refl, refl, refl)
