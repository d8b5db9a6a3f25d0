-- ===== src/Text/FilePath/Parts.antt =====
-- The parts of a path that is put together from a prefix and plain parts.
use Prim.Native.Char.{Char, code}
use text.Mathlib.TextLemmas.{nil-append, cons-append, cons-ne-nil, append_assoc as text_assoc}
use mathlib.Core.List.{reverse, reverse-cons}
use pprof_operator.Prelude.{
  ◌≡◌, ◌≢◌, refl, ◌∙◌, sym, ap, Bool, true, false, List, [], ◌∷◌, ◌++◌, String, ◌<>◌, ◌==◌, eqb,
  arith, eq_iff, Bool-cases, inl, inr,
}
use pprof_operator.Text.FilePath.{
  grow, split, is_rooted, resolve, resolve_all, stack_of, with_slashes, render, clean, join,
}

abbrev pub NoSlash : String → Type 0
NoSlash String.[] = Unit
NoSlash (String.◌∷◌ c s) = (eqb (code c) b'/' ≡ false) × NoSlash s

-- A name that stands for itself in a path.
pub record IsPart (s : String) : Type 0 where
  pub no_slash : NoSlash s
  pub not_empty : (s == "") ≡ false
  pub not_here : (s == ".") ≡ false
  pub not_up : (s == "..") ≡ false

split-cons : (s : String) → (p : String) × (ps : List String) × (split s ≡ p ∷ ps)
unfolding split
split-cons String.[] = ("", [], refl)
split-cons (String.◌∷◌ c s) =
    let (p, ps, h) = split-cons s in
    elim (Bool-cases (eqb (code c) b'/')) [
      | inl slash ↦ ("", split s, rw (slash, split) refl)
      | inr other ↦ (String.◌∷◌ c p, ps, rw (other, split, h) refl)
    ]

grow-append :
    (c : Char) (p : String) (ps qs : List String) → grow c ((p ∷ ps) ++ qs) ≡ grow c (p ∷ ps) ++ qs
grow-append c p ps qs = refl

-- A path that goes on behind a slash.
abbrev pub slash : String → String → String
slash s t = s <> ("/" <> t)

pub split-slash : (s t : String) → split (slash s t) ≡ split s ++ split t
unfolding split
split-slash String.[] t = rw (nil-append, cons-append, nil-append) refl
split-slash (String.◌∷◌ c s) t =
    let (p, ps, h) = split-cons s in
    elim (Bool-cases (eqb (code c) b'/')) [
      | inl y ↦ rw (cons-append, split) (rw (y, split-slash s t) refl)
      | inr n ↦ rw (cons-append, split) (rw (n, split-slash s t, h) refl)
    ]

pub split_of_NoSlash : (s : String) → NoSlash s → split s ≡ s ∷ []
unfolding split
split_of_NoSlash String.[] h = refl
split_of_NoSlash (String.◌∷◌ c s) (h, hs) = rw (split_of_NoSlash s hs, h) refl

resolve_of_IsPart :
    (rooted : Bool) (stack : List String) (s : String)
    → IsPart s
    → resolve rooted stack s ≡ s ∷ stack
unfolding resolve
resolve_of_IsPart rooted stack s h = rw (h.not_empty, h.not_here, h.not_up) refl

resolve_all-append :
    (rooted : Bool) (stack ps qs : List String)
    → resolve_all rooted stack (ps ++ qs) ≡ resolve_all rooted (resolve_all rooted stack ps) qs
unfolding resolve_all
resolve_all-append rooted stack [] qs = refl
resolve_all-append rooted stack (p ∷ ps) qs =
    resolve_all-append rooted (resolve rooted stack p) ps qs

is_rooted-slash : (s t : String) → (s == "") ≡ false → is_rooted (slash s t) ≡ is_rooted s
is_rooted-slash String.[] t h = absurd (ground arith)
is_rooted-slash (String.◌∷◌ c s) t h = rw cons-append refl

-- A plain part behind a slash is the last part.
stack_of-slash :
    (s t : String) → (s == "") ≡ false → IsPart t → stack_of (slash s t) ≡ t ∷ stack_of s
unfolding stack_of
stack_of-slash s t n h =
    rw (is_rooted-slash s t n, split-slash s t, split_of_NoSlash t h.no_slash, resolve_all-append)
      (resolve_of_IsPart (is_rooted s) _ t h)

slash_assoc : (s t u : String) → slash s (slash t u) ≡ slash (slash s t) u
slash_assoc s t u =
    sym (
      text_assoc s ("/" <> t) ("/" <> u)
      ∙ ap (λ (r : String). s <> r) (text_assoc "/" t ("/" <> u)))

not_nil : (s : String) → s ≢ "" → (s == "") ≡ false
not_nil s h = ground (arith, eq_iff s "")

slash-ne-nil : (s t : String) → (slash s t == "") ≡ false
slash-ne-nil String.[] t = rw (nil-append, cons-append) (not_nil _ (cons-ne-nil _ _))
slash-ne-nil (String.◌∷◌ c s) t = rw cons-append (not_nil _ (cons-ne-nil _ _))

-- Two parts behind a prefix.
pub stack_of-with_slashes :
    (s t u : String)
    → (s == "") ≡ false
    → IsPart t
    → IsPart u
    → stack_of (with_slashes (s ∷ t ∷ u ∷ [])) ≡ u ∷ t ∷ stack_of s
unfolding with_slashes
stack_of-with_slashes s t u n h k =
    ap stack_of (slash_assoc s t u)
    ∙ stack_of-slash (slash s t) u (slash-ne-nil s t) k
    ∙ ap (λ ps. u ∷ ps) (stack_of-slash s t n h)

with_slashes-snoc :
    (p : String) (ps : List String) (x : String)
    → with_slashes ((p ∷ ps) ++ (x ∷ [])) ≡ slash (with_slashes (p ∷ ps)) x
unfolding with_slashes
with_slashes-snoc p [] x = refl
with_slashes-snoc p (q ∷ ps) x = ap (slash p) (with_slashes-snoc q ps x) ∙ slash_assoc p _ x

with_slashes-snoc_snoc :
    (ps : List String) (q x : String)
    → with_slashes ((ps ++ (q ∷ [])) ++ (x ∷ [])) ≡ slash (with_slashes (ps ++ (q ∷ []))) x
with_slashes-snoc_snoc [] q x = with_slashes-snoc q [] x
with_slashes-snoc_snoc (p ∷ ps) q x = with_slashes-snoc p (ps ++ (q ∷ [])) x

with_slashes-reverse :
    (x q : String) (st : List String)
    → with_slashes (reverse (x ∷ q ∷ st)) ≡ slash (with_slashes (reverse (q ∷ st))) x
with_slashes-reverse x q st =
    ap with_slashes (reverse-cons x (q ∷ st) ∙ ap (λ ps. ps ++ (x ∷ [])) (reverse-cons q st))
    ∙ with_slashes-snoc_snoc (reverse st) q x
    ∙ ap (λ ps. slash (with_slashes ps) x) (sym (reverse-cons q st))

-- What is rendered under a directory is the directory and the part behind a slash.
render-cons :
    (rooted : Bool) (x q : String) (st : List String)
    → render rooted (x ∷ q ∷ st) ≡ slash (render rooted (q ∷ st)) x
render-cons false x q st = with_slashes-reverse x q st
render-cons true x q st =
    ap (λ (r : String). "/" <> r) (with_slashes-reverse x q st) ∙ sym (text_assoc "/" _ ("/" <> x))

pub render-parts :
    (rooted : Bool) (t u q : String) (st : List String)
    → render rooted (u ∷ t ∷ q ∷ st) ≡ slash (slash (render rooted (q ∷ st)) t) u
render-parts rooted t u q st =
    render-cons rooted u t (q ∷ st) ∙ ap (λ r. slash r u) (render-cons rooted t q st)

render_of_cons :
    (rooted : Bool) (t u : String) (st : List String)
    → st ≢ []
    → render rooted (u ∷ t ∷ st) ≡ slash (slash (render rooted st) t) u
render_of_cons rooted t u [] h = absurd (h refl)
render_of_cons rooted t u (q ∷ st) h = render-parts rooted t u q st

pub join-render :
    (s t u : String)
    → (s == "") ≡ false
    → IsPart t
    → IsPart u
    → join (s ∷ t ∷ u ∷ []) ≡ render (is_rooted s) (u ∷ t ∷ stack_of s)
unfolding join clean
join-render s t u n h k = rw n (
    ap (λ b. render b (stack_of (with_slashes (s ∷ t ∷ u ∷ [])))) (is_rooted-slash s (slash t u) n)
    ∙ ap (render (is_rooted s)) (stack_of-with_slashes s t u n h k))

-- Two plain parts are joined to a prefix that is more than the root and the current directory: the
-- cleaned prefix, with the parts behind it.
pub join-parts :
    (s t u : String)
    → (s == "") ≡ false
    → IsPart t
    → IsPart u
    → stack_of s ≢ []
    → join (s ∷ t ∷ u ∷ []) ≡ slash (slash (clean s) t) u
unfolding clean
join-parts s t u n h k more =
    join-render s t u n h k ∙ render_of_cons (is_rooted s) t u (stack_of s) more
