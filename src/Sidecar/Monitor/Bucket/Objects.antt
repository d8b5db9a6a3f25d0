-- ===== src/Sidecar/Monitor/Bucket/Objects.antt =====
-- Which profiles have one key, and how many objects are left of a list of keys.
use mathlib.Core.List.{map}
use text.Mathlib.TextLemmas.{append_cancel_left}
use pprof_operator.Prelude.{
  ◌≤◌, ◌≡◌, ◌≢◌, ◌↔◌, refl, sym, ap, true, false, List, [], ◌∷◌, arith, length, Bool-cases, inl,
  inr, String, ◌==◌, All, contains, are_distinct, eq_iff,
}
use pprof_operator.Text.FilePath.Parts.{NoSlash, IsPart}
use pprof_operator.Sidecar.Config.{Config}
use pprof_operator.Sidecar.Collect.Key.{ProfileType, IsPlain, s3_key-injective}
use pprof_operator.Sidecar.Kubelet.{Floats, Quantities}
use pprof_operator.Sidecar.Monitor.Bucket.{Profile, objects, key}

-- No object replaces another exactly if the keys are distinct.
length-objects : (ks : List String) → length (objects ks) ≤ length ks
length-objects [] = omega arith
length-objects (k ∷ ks) = ground (arith, length-objects ks)

length-objects_distinct :
    (ks : List String) → are_distinct ks ≡ true → length (objects ks) ≡ length ks
length-objects_distinct [] h = refl
length-objects_distinct (k ∷ ks) h = ground (arith, length-objects_distinct ks)

pub length-objects_iff :
    (ks : List String) → (length (objects ks) ≡ length ks) ↔ (are_distinct ks ≡ true)
length-objects_iff [] = (λ _. refl, λ _. refl)
length-objects_iff (k ∷ ks) = elim (Bool-cases (contains k ks)) [
  | inl twice ↦ (λ e. absurd (ground (arith, length-objects ks)), λ d. absurd (ground arith))
  | inr once ↦ (
    λ e. rw once ((length-objects_iff ks).0 (ground arith)),
    λ d. rw once (omega (arith, length-objects_distinct ks (ground arith))),
  )
]

-- No two of the profiles are of one type and time.
abbrev pub AreDistinct : List Profile → Type 0
AreDistinct [] = Unit
AreDistinct (p ∷ ps) = All (λ r. p ≢ r) ps × AreDistinct ps

-- A profile as the loop asks for it, at a time that is free of slashes.
abbrev pub IsNamed : Profile → Type 0
IsNamed p = ProfileType p.0 × NoSlash p.1

module _ (fl : Floats) (q : Quantities) (c : Config) (set : c.s3_path_prefix ≢ "")
    (pod : IsPart c.pod_name) (container : NoSlash c.target_container) where
  open fl use {F}

  key-injective : (p r : Profile) → IsNamed p → IsNamed r → key fl q c p ≡ key fl q c r → p ≡ r
  key-injective p r (type, time) (type', time') e =
      let plain : IsPlain c p.1 = record { pod = pod; container = container; timestamp = time } in
      let plain' : IsPlain c r.1 = record { pod = pod; container = container; timestamp = time' } in
      let (_, types, stems) =
        s3_key-injective c c p.0 r.0 p.1 r.1 set refl plain plain' type type' e in
      let times = append_cancel_left "-" _ _ (append_cancel_left c.target_container _ _ stems) in
      λ i. (types i, times i)

  contains_key :
      (p : Profile) (ps : List Profile)
      → IsNamed p
      → All IsNamed ps
      → (contains (key fl q c p) (map (key fl q c) ps) ≡ false) ↔ All (λ r. p ≢ r) ps
  contains_key p [] n ns = (λ _. tt, λ _. refl)
  contains_key p (r ∷ ps) n (m, ns) =
      let rest = contains_key p ps n ns in
      let same = eq_iff (key fl q c r) (key fl q c p) in
      (
        λ h. (λ e. absurd (ground (arith, same, ap (key fl q c) e)), rest.0 (ground arith)),
        λ (apart, others).
            let differ : (key fl q c r == key fl q c p) ≡ false =
              elim (Bool-cases (key fl q c r == key fl q c p)) [
                | inl equal ↦ absurd (apart (key-injective p r n m (sym (same.0 equal))))
                | inr other ↦ other
              ] in
            rw differ (rest.1 others),
      )

  pub keys_distinct_iff :
      (ps : List Profile)
      → All IsNamed ps
      → (are_distinct (map (key fl q c) ps) ≡ true) ↔ AreDistinct ps
  keys_distinct_iff [] ns = (λ _. tt, λ _. refl)
  keys_distinct_iff (p ∷ ps) (n, ns) =
      let first = contains_key p ps n ns in
      let rest = keys_distinct_iff ps ns in
      (
        λ d. (first.0 (ground arith), rest.0 (ground arith)),
        λ (apart, others). ground (arith, first.1 apart, rest.1 others),
      )
