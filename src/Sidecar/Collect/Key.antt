-- ===== src/Sidecar/Collect/Key.antt =====
-- The key under which a profile is stored.
use pprof_operator.Prelude.{
  ℕ, ◌<◌, ap, ◌≡◌, refl, ◌≢◌, ◌∷◌, ◌∙◌, sym, false, [], String, ◌<>◌, ◌==◌, arith, eq_iff,
}
use Prim.Native.Char.{code}
use text.Mathlib.TextLemmas.{
  nil-append, cons-append, append_assoc as text_assoc, append_cancel_left, append_cancel_right,
}
use pprof_operator.Text.FilePath.{join, clean, stack_of}
use pprof_operator.Text.FilePath.Parts.{NoSlash, IsPart, join-parts}
use pprof_operator.Text.FilePath.Distinct.{join-injective}
use pprof_operator.Sidecar.Config.{Config}
use pprof_operator.Sidecar.Collect.{profile_filename, s3_key}

-- Where the path prefix names more than the root and the current directory, and the pod's and the
-- file's names are plain, the key is the cleaned prefix, a slash, the pod, a slash and the
-- file.
pub s3_key-parts :
    (c : Config) (filename : String)
    → c.s3_path_prefix ≢ ""
    → stack_of c.s3_path_prefix ≢ []
    → IsPart c.pod_name
    → IsPart filename
    → s3_key c filename ≡ (clean c.s3_path_prefix <> ("/" <> c.pod_name)) <> ("/" <> filename)
unfolding s3_key
s3_key-parts c filename set more pod file =
    let n : (c.s3_path_prefix == "") ≡ false = ground (arith, eq_iff c.s3_path_prefix "") in
    rw n (join-parts c.s3_path_prefix c.pod_name filename n pod file more)

-- The two profile types that the loop asks for.
pub data ProfileType (k : String) : Type 0 where
  cpu : k ≡ "profile" → ProfileType k
  heap : k ≡ "heap" → ProfileType k

NoSlash-append : (s t : String) → NoSlash s → NoSlash t → NoSlash (s <> t)
NoSlash-append String.[] t h k = rw nil-append k
NoSlash-append (String.◌∷◌ c s) t h k = rw cons-append (h.0, NoSlash-append s t h.1 k)

-- What follows the type in a file's name.
abbrev rest_of : Config → String → String
rest_of c ts = "-" <> (c.pod_name <> ("-" <> (c.target_container <> ("-" <> (ts <> ".pprof")))))

rest_of-NoSlash :
    (c : Config) (ts : String)
    → NoSlash c.pod_name
    → NoSlash c.target_container
    → NoSlash ts
    → NoSlash (rest_of c ts)
rest_of-NoSlash c ts pod container time =
    let dash : NoSlash "-" = (refl, tt) in
    let end : NoSlash ".pprof" = (ground arith) in
    NoSlash-append "-" _ dash (
      NoSlash-append c.pod_name _ pod (
        NoSlash-append "-" _ dash (
          NoSlash-append c.target_container _ container
            (NoSlash-append "-" _ dash (NoSlash-append ts ".pprof" time end)))))

abbrev first_code : String → ℕ
first_code String.[] = 0
first_code (String.◌∷◌ c s) = code c

differ_of_ne : (s t : String) → s ≢ t → (s == t) ≡ false
differ_of_ne s t n = ground (arith, eq_iff s t)

differ : (s t : String) → first_code s ≢ first_code t → (s == t) ≡ false
differ s t n = differ_of_ne s t (λ e. n (ap first_code e))

IsPart_of_first :
    (s t : String) → NoSlash s → NoSlash t → first_code "." < first_code s → IsPart (s <> t)
IsPart_of_first String.[] t h k first = absurd (omega arith)
IsPart_of_first (String.◌∷◌ c s) t h k first = rw cons-append (record {
  no_slash = (h.0, NoSlash-append s t h.1 k);
  not_empty = differ (String.◌∷◌ c (s <> t)) "" (omega arith);
  not_here = differ (String.◌∷◌ c (s <> t)) "." (omega arith);
  not_up = differ (String.◌∷◌ c (s <> t)) ".." (omega arith);
})

profile_filename-IsPart :
    (c : Config) (k ts : String)
    → ProfileType k
    → NoSlash c.pod_name
    → NoSlash c.target_container
    → NoSlash ts
    → IsPart (profile_filename c k ts)
unfolding profile_filename
profile_filename-IsPart c k ts (cpu e) pod container time = rw e (
    IsPart_of_first "profile" (rest_of c ts) (ground arith)
      (rest_of-NoSlash c ts pod container time) (omega arith))
profile_filename-IsPart c k ts (heap e) pod container time = rw e (
    IsPart_of_first "heap" (rest_of c ts) (ground arith) (rest_of-NoSlash c ts pod container time)
      (omega arith))

first_code-append : (s t : String) → 0 < first_code s → first_code (s <> t) ≡ first_code s
first_code-append String.[] t h = absurd (omega arith)
first_code-append (String.◌∷◌ c s) t h = rw cons-append refl

types-ne : (r r' : String) → "profile" <> r ≢ "heap" <> r'
types-ne r r' e = omega (
  arith,
  ap first_code e,
  first_code-append "profile" r (omega arith),
  first_code-append "heap" r' (omega arith),
)

-- A file's name tells its type.
filename-type : (k k' r r' : String) → ProfileType k → ProfileType k' → k <> r ≡ k' <> r' → k ≡ k'
filename-type k k' r r' (cpu e) (cpu e') h = e ∙ sym e'
filename-type k k' r r' (heap e) (heap e') h = e ∙ sym e'
filename-type k k' r r' (cpu e) (heap e') h = absurd (types-ne r r' (rw (← e) (rw (← e') h)))
filename-type k k' r r' (heap e) (cpu e') h = absurd (types-ne r' r (rw (← e) (rw (← e') (sym h))))

-- A pod's part of the configuration, and the clock, as they may come: no name has a slash in it.
pub record IsPlain (c : Config) (ts : String) : Type 0 where
  pub pod : IsPart c.pod_name
  pub container : NoSlash c.target_container
  pub timestamp : NoSlash ts

s3_key_of_prefix :
    (c : Config) (filename : String)
    → c.s3_path_prefix ≢ ""
    → s3_key c filename ≡ join (c.s3_path_prefix ∷ c.pod_name ∷ filename ∷ [])
unfolding s3_key
s3_key_of_prefix c filename set = rw (differ_of_ne _ _ set) refl

abbrev stem : String → String → String
stem container ts = container <> ("-" <> ts)

-- What stands behind the pod's name is the stem and the extension.
stem_lem : (c ts : String) → c <> ("-" <> (ts <> ".pprof")) ≡ stem c ts <> ".pprof"
stem_lem c ts =
    sym (text_assoc c ("-" <> ts) ".pprof" ∙ ap (λ r. c <> r) (text_assoc "-" ts ".pprof"))

-- Names of one type and pod that are equal have equal stems.
stem-injective :
    (c c' : Config) (k k' ts ts' : String)
    → k ≡ k'
    → c.pod_name ≡ c'.pod_name
    → k <> rest_of c ts ≡ k' <> rest_of c' ts'
    → stem c.target_container ts ≡ stem c'.target_container ts'
stem-injective c c' k k' ts ts' types pods e =
    let rests : rest_of c ts ≡ rest_of c' ts' = append_cancel_left k _ _ (rw (← types) at e) in
    let rest : c.pod_name <> ("-" <> (c.target_container <> ("-" <> (ts <> ".pprof"))))
        ≡ c.pod_name <> ("-" <> (c'.target_container <> ("-" <> (ts' <> ".pprof")))) =
      append_cancel_left "-" _ _ (
        rests
        ∙ ap (λ p. "-" <> (p <> ("-" <> (c'.target_container <> ("-" <> (ts' <> ".pprof"))))))
            (sym pods)) in
    append_cancel_right _ _ ".pprof" (
      sym (stem_lem c.target_container ts)
      ∙ append_cancel_left "-" _ _ (append_cancel_left c.pod_name _ _ rest)
      ∙ stem_lem c'.target_container ts')

-- Two sidecars that store under one path prefix, which is not empty, for pods whose names are plain
-- parts of a path, and with no slash in the container's name and in the time: where the keys of two
-- CPU or heap profiles are equal, so are the pods' names, the types, and the texts made of the
-- container, a dash and the time.
pub s3_key-injective :
    (c c' : Config) (k k' ts ts' : String)
    → c.s3_path_prefix ≢ ""
    → c.s3_path_prefix ≡ c'.s3_path_prefix
    → IsPlain c ts
    → IsPlain c' ts'
    → ProfileType k
    → ProfileType k'
    → s3_key c (profile_filename c k ts) ≡ s3_key c' (profile_filename c' k' ts')
    → (c.pod_name ≡ c'.pod_name)
      × (k ≡ k')
      × (c.target_container <> ("-" <> ts) ≡ c'.target_container <> ("-" <> ts'))
unfolding profile_filename
s3_key-injective c c' k k' ts ts' set same h h' type type' e =
    let set' : c'.s3_path_prefix ≢ "" = rw (← same) set in
    let n : (c.s3_path_prefix == "") ≡ false = differ_of_ne _ _ set in
    let file = profile_filename-IsPart c k ts type h.pod.no_slash h.container h.timestamp in
    let file' = profile_filename-IsPart c' k' ts' type' h'.pod.no_slash h'.container h'.timestamp in
    let (pods, files) =
      join-injective c.s3_path_prefix c.pod_name _ c'.pod_name _ n h.pod file h'.pod file' (
        sym (s3_key_of_prefix c _ set)
        ∙ e
        ∙ s3_key_of_prefix c' _ set'
        ∙ ap (λ p. join (p ∷ c'.pod_name ∷ profile_filename c' k' ts' ∷ [])) (sym same)) in
    let types = filename-type k k' _ _ type type' files in
    (pods, types, stem-injective c c' k k' ts ts' types pods files)
