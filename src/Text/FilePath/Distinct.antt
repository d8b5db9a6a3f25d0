-- ===== src/Text/FilePath/Distinct.antt =====
-- Paths that are put together from one prefix differ where their parts do.
use text.Mathlib.TextLemmas.{nil-append, cons-append}
use pprof_operator.Prelude.{
  ◌≡◌, refl, ◌∙◌, sym, ap, Bool, true, false, List, [], ◌∷◌, ◌++◌, append_assoc, String, ◌<>◌, ◌==◌,
}
use pprof_operator.Text.FilePath.{is_rooted, split, stack_of, with_slashes, render, join}
use pprof_operator.Text.FilePath.Parts.{
  NoSlash, IsPart, slash, split-slash, split_of_NoSlash, render-parts, join-render,
}

-- What stands before the last two parts.
abbrev front : Bool → List String → List String
front false [] = []
front true [] = "" ∷ []
front rooted (q ∷ st) = split (render rooted (q ∷ st))

split_of_root : (s : String) → split ("/" <> s) ≡ "" ∷ split s
unfolding split
split_of_root s = rw (cons-append, nil-append) refl

split-parts : (t u : String) → NoSlash t → NoSlash u → split (slash t u) ≡ t ∷ u ∷ []
split-parts t u h k = split-slash t u ∙ rw (split_of_NoSlash t h, split_of_NoSlash u k) refl

split-render :
    (rooted : Bool) (t u : String) (st : List String)
    → NoSlash t
    → NoSlash u
    → split (render rooted (u ∷ t ∷ st)) ≡ front rooted st ++ (t ∷ u ∷ [])
unfolding with_slashes
split-render false t u [] h k = split-parts t u h k
split-render true t u [] h k = split_of_root (slash t u) ∙ ap (λ ps. "" ∷ ps) (split-parts t u h k)
split-render rooted t u (q ∷ st) h k =
    ap split (render-parts rooted t u q st)
    ∙ split-slash _ u
    ∙ rw (split-slash _ t, split_of_NoSlash t h, split_of_NoSlash u k)
        (append_assoc (split (render rooted (q ∷ st))) (t ∷ []) (u ∷ []))

append-cancel {ℓ} : {A : Type ℓ} (ps : List A) {qs rs : List A} → ps ++ qs ≡ ps ++ rs → qs ≡ rs
append-cancel [] e = e
append-cancel (p ∷ ps) e = append-cancel ps (cc)

-- Plain parts behind one prefix can be told from the path.
pub join-injective :
    (s t u t' u' : String)
    → (s == "") ≡ false
    → IsPart t
    → IsPart u
    → IsPart t'
    → IsPart u'
    → join (s ∷ t ∷ u ∷ []) ≡ join (s ∷ t' ∷ u' ∷ [])
    → (t ≡ t') × (u ≡ u')
join-injective s t u t' u' n h k h' k' e =
    let same : t ∷ u ∷ [] ≡ t' ∷ u' ∷ [] = append-cancel (front (is_rooted s) (stack_of s)) (
      sym (split-render _ t u (stack_of s) h.no_slash k.no_slash)
      ∙ ap split (sym (join-render s t u n h k) ∙ e ∙ join-render s t' u' n h' k')
      ∙ split-render _ t' u' (stack_of s) h'.no_slash k'.no_slash) in
    (cc, cc)
