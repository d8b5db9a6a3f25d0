-- ===== src/Text/Decimal/RoundTrip.antt =====
-- Every integer of 64 bits is read back from its decimal print.
use Prim.Native.Char.{code}
use text.Mathlib.TextLemmas.{nil-append, cons-append, append-ne-nil_of_right_ne-nil, cons-ne-nil}
use native.Mathlib.Decide.{dec_lt}
use pprof_operator.Prelude.{
  ℕ, zero, suc, ◌+◌, ◌*◌, ◌-◌, ◌/◌, ◌%◌, ◌<◌, ◌≡◌, ◌≢◌, refl, ◌∙◌, Option, none, some, String, ◌<>◌,
  arith, ap, ◌≤◌,
}
use pprof_operator.Prelude.Int.{ℤ, pos, negsuc, InRange}
use pprof_operator.Text.Decimal.{digit, digits, itoa, scan, scan_digits, positive, negative, atoi}

abbrev scan_more : Option ℕ → String → Option ℕ
scan_more none t = none
scan_more (some n) t = scan t n

scan-append : (s t : String) (n : ℕ) → scan (s <> t) n ≡ scan_more (scan s n) t
unfolding scan
scan-append String.[] t n = rw nil-append
scan-append (String.◌∷◌ c s) t n =
    rw cons-append (ground (arith, scan-append s t (n * 10 + (code c - b'0'))))

scan-digit : (d n : ℕ) → d < 10 → scan (digit d) n ≡ some (n * 10 + d)
unfolding scan digit
scan-digit zero n h = refl
scan-digit (suc zero) n h = refl
scan-digit (suc (suc zero)) n h = refl
scan-digit (suc (suc (suc zero))) n h = refl
scan-digit (suc (suc (suc (suc zero)))) n h = refl
scan-digit (suc (suc (suc (suc (suc zero))))) n h = refl
scan-digit (suc (suc (suc (suc (suc (suc zero)))))) n h = refl
scan-digit (suc (suc (suc (suc (suc (suc (suc zero))))))) n h = refl
scan-digit (suc (suc (suc (suc (suc (suc (suc (suc zero)))))))) n h = refl
scan-digit (suc (suc (suc (suc (suc (suc (suc (suc (suc zero))))))))) n h = refl
scan-digit (suc (suc (suc (suc (suc (suc (suc (suc (suc (suc d)))))))))) n h = absurd (omega arith)

-- A text that is one character is not empty.
ne-nil_of_scan : (s : String) (n m : ℕ) → n ≢ m → scan s n ≡ some m → s ≢ ""
unfolding scan
ne-nil_of_scan String.[] n m h e = absurd (h (ground arith))
ne-nil_of_scan (String.◌∷◌ c s) n m h e = cons-ne-nil c s

digit-ne-nil : (d : ℕ) → d < 10 → digit d ≢ ""
digit-ne-nil d h = ne-nil_of_scan (digit d) 1 (1 * 10 + d) (omega arith) (scan-digit d 1 h)

pub digits-small : (f n : ℕ) → n < 10 → digits (suc f) n ≡ digit n
unfolding digits
digits-small f n h = ground arith

pub digits-large : (f n : ℕ) → 10 ≤ n → digits (suc f) n ≡ digits f (n / 10) <> digit (n % 10)
unfolding digits
digits-large f n h = ground arith

-- Enough fuel: the digits of `n` are read back as `n`.
scan-digits : (f n : ℕ) → n < f → scan (digits f n) 0 ≡ some n
scan-digits zero n h = absurd (omega arith)
scan-digits (suc f) n h = elim (dec_lt n 10) [
  | yes small ↦ rw (digits-small f n small) (scan-digit n 0 small ∙ ground arith)
  | no large ↦
      rw (digits-large f n (omega arith), scan-append, scan-digits f (n / 10) (omega arith))
        (scan-digit (n % 10) (n / 10) (omega arith) ∙ ap some (omega arith))
]

pub digits-ne-nil : (f n : ℕ) → n < f → digits f n ≢ ""
digits-ne-nil zero n h = absurd (omega arith)
digits-ne-nil (suc f) n h = elim (dec_lt n 10) [
  | yes small ↦ rw (digits-small f n small) (digit-ne-nil n small)
  | no large ↦
      rw (digits-large f n (omega arith))
        (append-ne-nil_of_right_ne-nil _ (digit-ne-nil (n % 10) (omega arith)))
]

scan_digits-eq-scan : (s : String) → s ≢ "" → scan_digits s ≡ scan s 0
unfolding scan_digits
scan_digits-eq-scan String.[] h = absurd (h refl)
scan_digits-eq-scan (String.◌∷◌ c s) h = refl

scan_digits-digits : (n : ℕ) → scan_digits (digits (suc n) n) ≡ some n
scan_digits-digits n =
    scan_digits-eq-scan _ (digits-ne-nil (suc n) n (omega arith))
    ∙ scan-digits (suc n) n (omega arith)

-- A text that begins with a digit has no sign.
atoi_unsigned : (s : String) (n : ℕ) → scan_digits s ≡ some n → atoi s ≡ positive n
unfolding atoi
atoi_unsigned String.[] n h = cc
atoi_unsigned (String.◌∷◌ c s) n h = ground arith

atoi_minus : (s : String) (n : ℕ) → scan_digits s ≡ some n → atoi ("-" <> s) ≡ negative n
unfolding atoi
atoi_minus s n h = rw (cons-append, nil-append) (rw h)

-- `Atoi` reads back what `Sprintf("%d", n)` prints, for every 64-bit integer `n`.
pub atoi-itoa : (n : ℤ) → InRange 63 n → atoi (itoa n) ≡ some n
unfolding itoa
atoi-itoa (pos n) h = atoi_unsigned _ n (scan_digits-digits n) ∙ ground arith
atoi-itoa (negsuc n) h = atoi_minus _ (suc n) (scan_digits-digits (suc n)) ∙ ground arith
