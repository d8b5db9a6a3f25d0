-- ===== src/Webhook/Builder/Names.antt =====
-- Which block of the sidecar's environment sets a variable: every block keeps to names of its own.
use pprof_operator.Prelude.{
  ◌≡◌, refl, sym, ap, true, false, Option, none, some, List, [], ◌∷◌, ◌++◌, String, ◌==◌, arith,
  eq_iff, contains, All, Bool-cases, inl, inr, if◌then◌else◌, or_else,
}
use pprof_operator.Kube.{EnvVar}

-- The last entry with a name, which is the one that counts.
abbrev pub last_named : String → List EnvVar → Option EnvVar
last_named n [] = none
last_named n (e ∷ es) = elim (last_named n es) [
  | some x ↦ some x
  | none ↦ if e.name == n then some e else none
]

or_else-none : (x : Option EnvVar) → or_else x none ≡ x
or_else-none none = refl
or_else-none (some x) = refl

pub last_named-append :
    (n : String) (xs ys : List EnvVar)
    → last_named n (xs ++ ys) ≡ or_else (last_named n ys) (last_named n xs)
last_named-append n [] ys = sym (or_else-none (last_named n ys))
last_named-append n (x ∷ xs) ys = ground (arith, last_named-append n xs ys)

-- Every entry has one of the names.
abbrev pub Names : List String → List EnvVar → Type 0
Names ns es = All (λ (e : EnvVar). contains e.name ns ≡ true) es

contains_eq : (k n : String) (ns : List String) → k ≡ n → contains k ns ≡ contains n ns
contains_eq k n ns h = ap (λ j. contains j ns) h

pub last_named-absent :
    (n : String) (ns : List String) (es : List EnvVar)
    → Names ns es
    → contains n ns ≡ false
    → last_named n es ≡ none
last_named-absent n ns [] h k = refl
last_named-absent n ns (e ∷ es) (p, h) k =
    ground (arith, last_named-absent n ns es h k, eq_iff e.name n, contains_eq e.name n ns)

-- A block of entries, with the names that it keeps to.
abbrev pub Block : Type 0
Block = List String × List EnvVar

abbrev pub entries : List Block → List EnvVar
entries [] = []
entries (b ∷ bs) = b.1 ++ entries bs

abbrev pub AllKeep : List Block → Type 0
AllKeep [] = Unit
AllKeep (b ∷ bs) = Names b.0 b.1 × AllKeep bs

-- The entries of the blocks that may set the name.
abbrev pub pick : String → List Block → List EnvVar
pick n [] = []
pick n (b ∷ bs) = if contains n b.0 then b.1 ++ pick n bs else pick n bs

-- Only the blocks that may set a name decide what it is set to.
pub last_named-pick :
    (n : String) (bs : List Block)
    → AllKeep bs
    → last_named n (entries bs) ≡ last_named n (pick n bs)
last_named-pick n [] h = refl
last_named-pick n (b ∷ bs) (k, h) = elim (Bool-cases (contains n b.0)) [
  | inl may ↦ rw may (
      rw (last_named-append n b.1 (entries bs), last_named-pick n bs h)
        (sym (last_named-append n b.1 (pick n bs))))
  | inr never ↦ rw never (
      rw
        (
          last_named-append n b.1 (entries bs),
          last_named-absent n b.0 b.1 k never,
          last_named-pick n bs h,
        )
        (or_else-none _))
]
