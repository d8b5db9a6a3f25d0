-- ===== src/Text/Decimal/Shape.antt =====
-- What the decimal print of a number looks like.
use Prim.Native.Char.{code}
use text.Mathlib.TextLemmas.{nil-append, cons-append, cons-ne-nil}
use native.Mathlib.Decide.{dec_lt}
use pprof_operator.Prelude.{ℕ, zero, suc, ◌/◌, ◌%◌, ◌<◌, ◌≢◌, String, ◌<>◌, arith}
use pprof_operator.Prelude.Int.{ℤ, pos, negsuc}
use pprof_operator.Text.Decimal.{digit, digits, itoa}
use pprof_operator.Text.Decimal.RoundTrip.{digits-small, digits-large, digits-ne-nil}

-- The text has no dollar sign.
abbrev pub NoDollar : String → Type 0
NoDollar String.[] = Unit
NoDollar (String.◌∷◌ c s) = (code c ≢ b'$') × NoDollar s

pub NoDollar-append : (s t : String) → NoDollar s → NoDollar t → NoDollar (s <> t)
NoDollar-append String.[] t h k = rw nil-append k
NoDollar-append (String.◌∷◌ c s) t (p, h) k = rw cons-append (p, NoDollar-append s t h k)

digit-NoDollar : (d : ℕ) → NoDollar (digit d)
unfolding digit
digit-NoDollar zero = omega arith
digit-NoDollar (suc zero) = omega arith
digit-NoDollar (suc (suc zero)) = omega arith
digit-NoDollar (suc (suc (suc zero))) = omega arith
digit-NoDollar (suc (suc (suc (suc zero)))) = omega arith
digit-NoDollar (suc (suc (suc (suc (suc zero))))) = omega arith
digit-NoDollar (suc (suc (suc (suc (suc (suc zero)))))) = omega arith
digit-NoDollar (suc (suc (suc (suc (suc (suc (suc zero))))))) = omega arith
digit-NoDollar (suc (suc (suc (suc (suc (suc (suc (suc zero)))))))) = omega arith
digit-NoDollar _ = omega arith

digits-NoDollar : (f n : ℕ) → n < f → NoDollar (digits f n)
digits-NoDollar zero n h = absurd (omega arith)
digits-NoDollar (suc f) n h = elim (dec_lt n 10) [
  | yes small ↦ rw (digits-small f n small) (digit-NoDollar n)
  | no large ↦
      rw (digits-large f n (omega arith))
        (NoDollar-append _ _ (digits-NoDollar f (n / 10) (omega arith)) (digit-NoDollar (n % 10)))
]

pub itoa-NoDollar : (n : ℤ) → NoDollar (itoa n)
unfolding itoa
itoa-NoDollar (pos n) = digits-NoDollar (suc n) n (omega arith)
itoa-NoDollar (negsuc n) =
    NoDollar-append "-" _ (omega arith) (digits-NoDollar (suc (suc n)) (suc n) (omega arith))

pub itoa-ne-nil : (n : ℤ) → itoa n ≢ ""
unfolding itoa
itoa-ne-nil (pos n) = digits-ne-nil (suc n) n (omega arith)
itoa-ne-nil (negsuc n) = rw cons-append (cons-ne-nil _ _)
