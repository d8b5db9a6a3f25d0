-- ===== src/Webhook/Mutator/Containers.antt =====
-- The container list of a pod, with the sidecar added and taken away.
use pprof_operator.Prelude.{
  ℕ, suc, ◌≤◌, ◌≡◌, refl, true, false, List, [], ◌∷◌, ◌++◌, String, ◌==◌, eq_iff, arith,
  if◌then◌else◌,
}
use pprof_operator.Kube.{Container}
use pprof_operator.Webhook.Settings.{has_sidecar}
use pprof_operator.Webhook.Mutator.{sidecar_name, without_sidecar}

-- How many containers of the list have the name.
abbrev pub count_named : String → List Container → ℕ
count_named n [] = 0
count_named n (c ∷ cs) = if c.name == n then suc (count_named n cs) else count_named n cs

pub has_sidecar-append :
    (cs : List Container) (c : Container) (n : String)
    → c.name ≡ n
    → has_sidecar (cs ++ (c ∷ [])) n ≡ true
unfolding has_sidecar
has_sidecar-append [] c n h = ground (arith, eq_iff c.name n)
has_sidecar-append (d ∷ cs) c n h = ground (arith, has_sidecar-append cs c n h)

pub count_named-append :
    (cs : List Container) (c : Container) (n : String)
    → c.name ≡ n
    → count_named n (cs ++ (c ∷ [])) ≡ suc (count_named n cs)
count_named-append [] c n h = ground (arith, eq_iff c.name n)
count_named-append (d ∷ cs) c n h = ground (arith, count_named-append cs c n h)

pub has_sidecar-without_sidecar :
    (cs : List Container) → has_sidecar (without_sidecar cs) sidecar_name ≡ false
unfolding has_sidecar without_sidecar
has_sidecar-without_sidecar [] = refl
has_sidecar-without_sidecar (c ∷ cs) = ground (arith, has_sidecar-without_sidecar cs)

pub without_sidecar_of_none :
    (cs : List Container) → has_sidecar cs sidecar_name ≡ false → without_sidecar cs ≡ cs
unfolding has_sidecar without_sidecar
without_sidecar_of_none [] h = refl
without_sidecar_of_none (c ∷ cs) h = ground (arith, without_sidecar_of_none cs)

pub without_sidecar-append :
    (cs ds : List Container) → without_sidecar (cs ++ ds) ≡ without_sidecar cs ++ without_sidecar ds
unfolding without_sidecar
without_sidecar-append [] ds = refl
without_sidecar-append (c ∷ cs) ds = ground (arith, without_sidecar-append cs ds)

pub count_named-without_sidecar :
    (cs : List Container) → count_named sidecar_name (without_sidecar cs) ≡ 0
unfolding without_sidecar
count_named-without_sidecar [] = refl
count_named-without_sidecar (c ∷ cs) = ground (arith, count_named-without_sidecar cs)

pub count_named-pos :
    (cs : List Container) → has_sidecar cs sidecar_name ≡ true → 1 ≤ count_named sidecar_name cs
unfolding has_sidecar
count_named-pos [] h = absurd (ground arith)
count_named-pos (c ∷ cs) h = ground (arith, count_named-pos cs)
