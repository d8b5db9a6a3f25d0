-- ===== src/Api/DeepCopy.antt =====
-- The deep copies: api/v1/zz_generated.deepcopy.go.
pub mod Heaps
pub mod Copier
pub mod Pointers
pub mod Parts
pub mod Slices
pub mod Views
pub mod Separate
use pprof_operator.Prelude.{ℕ, Option, none, some, List, [], ◌∷◌, String}
use pprof_operator.Prelude.Int.{ℤ}
use pprof_operator.Api.{SecretRef, ProfileRecord}
use pprof_operator.Api.Memory.{
  StoredBasicAuth, StoredAuth, StoredScrapTarget, StoredSpec, StoredStatus, StoredProfiler,
  StoredList, Kind, Action, return, ◌>>=◌, load, new, ints, secrets, basics, auths, targets,
  record_arrays, record_cells, spec_cells, status_cells, profiler_cells, profiler_arrays, lists,
}

-- `if in.X != nil { *out = new(X); (*in).DeepCopyInto(*out) }`, and `DeepCopy` on a pointer.
abbrev pub copy_pointer : {S : Type 0} → Kind S → (S → Action S) → Option ℕ → Action (Option ℕ)
copy_pointer k copy none = return none
copy_pointer k copy (some p) = do s ← load k p; s' ← copy s; p' ← new k s'; return (some p')

-- The loop over a slice.
abbrev pub copy_all : {S : Type 0} → (S → Action S) → List S → Action (List S)
copy_all copy [] = return []
copy_all copy (s ∷ ss) = do s' ← copy s; ss' ← copy_all copy ss; return (s' ∷ ss')

-- `**out = **in`.
abbrev pub copy_int : ℤ → Action ℤ
copy_int v = return v

abbrev pub secret_ref_deep_copy_into : SecretRef → Action SecretRef
secret_ref_deep_copy_into s = return s

abbrev pub basic_auth_deep_copy_into : StoredBasicAuth → Action StoredBasicAuth
basic_auth_deep_copy_into b = do
  p ← copy_pointer secrets secret_ref_deep_copy_into b.secret_ref
  return (record b { secret_ref = p })

abbrev pub auth_deep_copy_into : StoredAuth → Action StoredAuth
auth_deep_copy_into a = do
  p ← copy_pointer basics basic_auth_deep_copy_into a.basic_auth
  return (record a { basic_auth = p })

abbrev pub scrap_target_deep_copy_into : StoredScrapTarget → Action StoredScrapTarget
scrap_target_deep_copy_into t = do
  p ← copy_pointer auths auth_deep_copy_into t.auth
  return (record t { auth = p })

abbrev pub profile_record_deep_copy_into : ProfileRecord → Action ProfileRecord
profile_record_deep_copy_into r = return r

abbrev pub profiler_status_deep_copy_into : StoredStatus → Action StoredStatus
profiler_status_deep_copy_into s = do
  p ← copy_pointer record_arrays (copy_all profile_record_deep_copy_into) s.profiles
  return (record s { profiles = p })

abbrev pub copy_both : {S T : Type 0} → (S → Action S) → (T → Action T) → S × T → Action (S × T)
copy_both copy copy' (s, t) = do s' ← copy s; t' ← copy' t; return (s', t')

-- The three pointers of the specification.
abbrev pub spec_pointers : StoredSpec → Option ℕ × (Option ℕ × Option ℕ)
spec_pointers s = (s.cpu_threshold, (s.memory_threshold, s.scrap_target))

abbrev pub with_pointers : Option ℕ × (Option ℕ × Option ℕ) → StoredSpec → StoredSpec
with_pointers ps s = record s {
  cpu_threshold = ps.0;
  memory_threshold = ps.1.0;
  scrap_target = ps.1.1;
}

abbrev pub profiler_spec_deep_copy_into : StoredSpec → Action StoredSpec
profiler_spec_deep_copy_into s = do
  ps ←
      copy_both (copy_pointer ints copy_int)
        (copy_both (copy_pointer ints copy_int) (copy_pointer targets scrap_target_deep_copy_into))
        (spec_pointers s)
  return (with_pointers ps s)

abbrev pub profiler_deep_copy_into : StoredProfiler → Action StoredProfiler
profiler_deep_copy_into p = do
  parts ← copy_both profiler_spec_deep_copy_into profiler_status_deep_copy_into (p.spec, p.status)
  return (record p { spec = parts.0; status = parts.1 })

abbrev pub profiler_list_deep_copy_into : StoredList → Action StoredList
profiler_list_deep_copy_into l = do
  p ← copy_pointer profiler_arrays (copy_all profiler_deep_copy_into) l.items
  return (record l { items = p })

-- `DeepCopy` of each type.
unfoldable pub secret_ref_deep_copy : Option ℕ → Action (Option ℕ)
secret_ref_deep_copy = copy_pointer secrets secret_ref_deep_copy_into

unfoldable pub basic_auth_deep_copy : Option ℕ → Action (Option ℕ)
basic_auth_deep_copy = copy_pointer basics basic_auth_deep_copy_into

unfoldable pub auth_deep_copy : Option ℕ → Action (Option ℕ)
auth_deep_copy = copy_pointer auths auth_deep_copy_into

unfoldable pub scrap_target_deep_copy : Option ℕ → Action (Option ℕ)
scrap_target_deep_copy = copy_pointer targets scrap_target_deep_copy_into

unfoldable pub profile_record_deep_copy : Option ℕ → Action (Option ℕ)
profile_record_deep_copy = copy_pointer record_cells profile_record_deep_copy_into

unfoldable pub profiler_status_deep_copy : Option ℕ → Action (Option ℕ)
profiler_status_deep_copy = copy_pointer status_cells profiler_status_deep_copy_into

unfoldable pub profiler_spec_deep_copy : Option ℕ → Action (Option ℕ)
profiler_spec_deep_copy = copy_pointer spec_cells profiler_spec_deep_copy_into

unfoldable pub profiler_deep_copy : Option ℕ → Action (Option ℕ)
profiler_deep_copy = copy_pointer profiler_cells profiler_deep_copy_into

unfoldable pub profiler_list_deep_copy : Option ℕ → Action (Option ℕ)
profiler_list_deep_copy = copy_pointer lists profiler_list_deep_copy_into

-- `if c := in.DeepCopy(); c != nil { return c }; return nil`.
abbrev pub as_object : Option ℕ → Action (Option ℕ)
as_object none = return none
as_object (some c) = return (some c)

unfoldable pub profiler_deep_copy_object : Option ℕ → Action (Option ℕ)
unfolding profiler_deep_copy
profiler_deep_copy_object p = profiler_deep_copy p >>= as_object

unfoldable pub profiler_list_deep_copy_object : Option ℕ → Action (Option ℕ)
unfolding profiler_list_deep_copy
profiler_list_deep_copy_object p = profiler_list_deep_copy p >>= as_object
