-- ===== src/Text.antt =====
-- What the program uses of Go's `strings`: `TrimSpace` and `ToLower`.
-- A Go string is a native text, that is, a sequence of code points: texts that are not valid UTF-8
-- are left out.
pub mod Trim
pub mod Decimal
pub mod FilePath
use Prim.Native.Char.{Char, code}
use pprof_operator.Prelude.{
  ℕ, ◌+◌, Bool, true, false, ◌&&◌, ◌||◌, List, [], ◌∷◌, String, ◌==◌, leb, eqb, if◌then◌else◌,
}

-- `unicode.IsSpace`.
unfoldable pub is_space : ℕ → Bool
is_space c =
    (leb 9 c && leb c 13)
    || (eqb c 32
        || (eqb c 0x85
            || (eqb c 0xA0
                || (eqb c 0x1680
                    || ((leb 0x2000 c && leb c 0x200A)
                        || (eqb c 0x2028
                            || (eqb c 0x2029
                                || (eqb c 0x202F || (eqb c 0x205F || eqb c 0x3000)))))))))

-- `strings.TrimLeft` and `strings.TrimRight` by that test.
unfoldable pub trim_left : String → String
unfolding is_space
trim_left String.[] = ""
trim_left (String.◌∷◌ c s) =
    let rest = trim_left s in if is_space (code c) then rest else String.◌∷◌ c s

unfoldable pub trim_right : String → String
unfolding is_space
trim_right String.[] = ""
trim_right (String.◌∷◌ c s) =
    let rest = trim_right s in if is_space (code c) && rest == "" then "" else String.◌∷◌ c rest

-- `strings.TrimSpace`.
unfoldable pub trim_space : String → String
unfolding trim_left trim_right
trim_space s = trim_right (trim_left s)

-- The code points of a text.
abbrev pub codes : String → List ℕ
codes String.[] = []
codes (String.◌∷◌ c s) = code c ∷ codes s

-- `unicode.ToLower` as far as it yields an ASCII letter: A to Z, the dotted capital I and the
-- Kelvin sign. Every other code point is lowered to one that is not ASCII, or stays.
unfoldable pub lower : ℕ → ℕ
lower c =
    if leb b'A' c && leb c b'Z'
    then c + 32
    else if eqb c 0x130
    then b'i'
    else if eqb c 0x212A
    then b'k'
    else c

-- `strings.ToLower(s) == word`, for a word of ASCII letters and digits.
unfoldable pub lowers_to : String → String → Bool
unfolding lower
lowers_to String.[] String.[] = true
lowers_to (String.◌∷◌ c s) (String.◌∷◌ d t) = eqb (lower (code c)) (code d) && lowers_to s t
lowers_to _ _ = false
