-- ===== src/Text/FilePath.antt =====
-- `filepath.Join` and `filepath.Clean` of Go on Unix, by the parts between slashes.
pub mod Parts
pub mod Distinct
use Prim.Native.Char.{code}
use pprof_operator.Prelude.{
  ◌≡◌, refl, Bool, true, false, ◌||◌, List, [], ◌∷◌, String, ◌<>◌, ◌==◌, eqb, if◌then◌else◌,
}
use mathlib.Core.List.{reverse}
use Prim.Native.Char.{Char}

abbrev pub grow : Char → List String → List String
grow c [] = String.◌∷◌ c "" ∷ []
grow c (p ∷ ps) = String.◌∷◌ c p ∷ ps

-- The parts between the slashes; there is at least one.
unfoldable pub split : String → List String
split String.[] = "" ∷ []
split (String.◌∷◌ c s) = let ps = split s in if eqb (code c) b'/' then "" ∷ ps else grow c ps

abbrev pub is_rooted : String → Bool
is_rooted String.[] = false
is_rooted (String.◌∷◌ c s) = eqb (code c) b'/'

-- ".." takes the last part away, if that is not itself a ".." that was kept; at the root it is
-- dropped, and at the front of a relative path it is kept.
abbrev pub up : Bool → List String → List String
up rooted [] = if rooted then [] else ".." ∷ []
up rooted (top ∷ stack) = if top == ".." then ".." ∷ top ∷ stack else stack

-- One part, on the stack of the parts before it.
unfoldable pub resolve : Bool → List String → String → List String
resolve rooted stack part =
    if part == "" || part == "."
    then stack
    else if part == ".."
    then up rooted stack
    else part ∷ stack

unfoldable pub resolve_all : Bool → List String → List String → List String
unfolding resolve
resolve_all rooted stack [] = stack
resolve_all rooted stack (part ∷ parts) = resolve_all rooted (resolve rooted stack part) parts

-- The parts of a cleaned path, the last one first.
unfoldable pub stack_of : String → List String
unfolding split resolve_all
stack_of path = resolve_all (is_rooted path) [] (split path)

unfoldable pub with_slashes : List String → String
with_slashes [] = ""
with_slashes (p ∷ []) = p
with_slashes (p ∷ q ∷ ps) = p <> ("/" <> with_slashes (q ∷ ps))

abbrev pub render : Bool → List String → String
render false [] = "."
render false (p ∷ ps) = with_slashes (reverse (p ∷ ps))
render true stack = "/" <> with_slashes (reverse stack)

-- `filepath.Clean`.
unfoldable pub clean : String → String
unfolding stack_of with_slashes
clean path = render (is_rooted path) (stack_of path)

-- `filepath.Join`: the elements from the first one that is not empty.
unfoldable pub join : List String → String
unfolding clean
join [] = ""
join (e ∷ es) = let rest = join es in if e == "" then rest else clean (with_slashes (e ∷ es))

join_tests :
    (join ("profiles/" ∷ "pod-1" ∷ "f.pprof" ∷ []) ≡ "profiles/pod-1/f.pprof")
    × (join ("/a//b/.." ∷ "pod" ∷ "f" ∷ []) ≡ "/a/pod/f")
    × (join ("" ∷ "" ∷ "f" ∷ []) ≡ "f")
    × (clean "../../x/./" ≡ "../../x")
    × (clean "/.." ≡ "/")
    × (clean "" ≡ ".")
unfolding join
join_tests = (refl, refl, refl, refl, refl, refl)
