-- ===== src/Http.antt =====
-- What the sidecar and the sample application use of Go's net/http to serve: the default
-- multiplexer and ListenAndServe. Of a request only its path counts, which is taken to be clean.
use Prim.Native.Char.{code}
use pprof_operator.Prelude.{
  Bool, true, false, ◌&&◌, ◌||◌, Option, none, some, List, [], ◌∷◌, String, ◌==◌, contains, eqb,
  ltb, suc, ℕ, if◌then◌else◌,
}

-- The patterns with their handlers.
abbrev pub Mux : Type 0 → Type 0
Mux H = List (String × H)

abbrev pub patterns : {H : Type 0} → Mux H → List String
patterns [] = []
patterns ((p, h) ∷ mux) = p ∷ patterns mux

-- `http.Handle`, which panics for a pattern that is there.
abbrev pub http_handle : {H : Type 0} → String → H → Mux H → Option (Mux H)
http_handle pattern h mux =
    if contains pattern (patterns mux) then none else some ((pattern, h) ∷ mux)

abbrev size : String → ℕ
size String.[] = 0
size (String.◌∷◌ c s) = suc (size s)

abbrev is_prefix : String → String → Bool
is_prefix String.[] t = true
is_prefix (String.◌∷◌ c s) String.[] = false
is_prefix (String.◌∷◌ c s) (String.◌∷◌ d t) = eqb (code c) (code d) && is_prefix s t

abbrev ends_with_slash : String → Bool
ends_with_slash String.[] = false
ends_with_slash (String.◌∷◌ c s) = (eqb (code c) b'/' && s == "") || ends_with_slash s

-- A pattern that ends with a slash stands for all the paths below it.
abbrev matches : String → String → Bool
matches pattern path = pattern == path || (ends_with_slash pattern && is_prefix pattern path)

abbrev longer : {H : Type 0} → String × H → Option (String × H) → String × H
longer p none = p
longer (p, h) (some (q, k)) = if ltb (size p) (size q) then (q, k) else (p, h)

abbrev best_match : {H : Type 0} → Mux H → String → Option (String × H)
best_match [] path = none
best_match ((p, h) ∷ mux) path =
    let rest = best_match mux path in if matches p path then some (longer (p, h) rest) else rest

abbrev handler_of : {H : Type 0} → Option (String × H) → Option H
handler_of none = none
handler_of (some (p, h)) = some h

-- The handler of the longest pattern that a path matches, or `none` for the status 404.
abbrev pub answered_by : {H : Type 0} → Mux H → String → Option H
answered_by mux path = handler_of (best_match mux path)

-- What comes of a call that serves: it panics, it goes on to serve at an address by a multiplexer,
-- or it returns an error.
pub data Serving (H : Type 0) : Type 0 where
  panics : Serving H
  serves : String → Mux H → Serving H
  returns : String → Serving H

-- The listener of an address: the error with which it ends, if it does.
abbrev pub Listener : Type 0
Listener = String → Option String

-- `http.ListenAndServe` with the default multiplexer.
abbrev pub listen_and_serve : {H : Type 0} → Listener → String → Mux H → Serving H
listen_and_serve listen addr mux = elim (listen addr) [
  | none ↦ serves addr mux
  | some e ↦ returns e
]
