-- ===== src/Api/Scheme.antt =====
-- The registration of the API's types: api/v1/groupversion_info.go and `init` of
-- api/v1/profiler_types.go. A Go type is known by the path of its package and its name. The schemes
-- of the API machinery and the builder of controller-runtime are the parameter Machinery.
use pprof_operator.Prelude.{
  ◌≡◌, ◌≢◌, Bool, true, false, ◌&&◌, ◌||◌, Option, none, some, List, [], ◌∷◌, String, ◌==◌,
  are_distinct, if◌then◌else◌, Result, ok, All,
}

pub record GroupVersion : Type 0 where
  pub group : String
  pub version : String

pub record GoType : Type 0 where
  pub import_path : String
  pub name : String

-- `schema.GroupVersionKind`.
pub record Kind : Type 0 where
  pub group_version : GroupVersion
  pub kind : String

abbrev pub same_type : GoType → GoType → Bool
same_type a b = a.import_path == b.import_path && a.name == b.name

abbrev pub has_type : GoType → List GoType → Bool
has_type t [] = false
has_type t (u ∷ us) = same_type u t || has_type t us

abbrev pub type_names : List GoType → List String
type_names [] = []
type_names (t ∷ ts) = t.name ∷ type_names ts

-- The package of the types, such as ListOptions and WatchEvent, that every group and version gets.
abbrev pub meta_package : String
meta_package = "k8s.io/apimachinery/pkg/apis/meta/v1"

-- A scheme gives a Go type its kind. A builder of a group and version collects Go types, and then
-- adds them to a scheme that has none of them and nothing of that version: each under its own name.
-- It also adds types of `meta_package`, of whose kinds nothing is said. `client_go` is `AddToScheme` of client-go.
pub record Machinery : Type 1 where
  pub Scheme : Type 0
  pub Builder : Type 0
  pub kind_of : Scheme → GoType → Option Kind
  pub has_version : Scheme → GroupVersion → Bool
  pub new_scheme : Scheme
  pub new_builder : GroupVersion → Builder
  pub register : List GoType → Builder → Builder
  pub add_to_scheme : Builder → Scheme → Result String Scheme
  pub client_go : Scheme → Result String Scheme
  pub add_to_scheme-adds :
      (gv : GroupVersion) (ts : List GoType) (s : Scheme)
      → are_distinct (type_names ts) ≡ true
      → has_version s gv ≡ false
      → All (λ t. kind_of s t ≡ none) ts
      → (after : Scheme) × (add_to_scheme (register ts (new_builder gv)) s ≡ ok after)
        × ((t : GoType)
            → t.import_path ≢ meta_package
            → kind_of after t ≡ (
                if has_type t ts
                then some (record { group_version = gv; kind = t.name })
                else kind_of s t))

abbrev pub api_package : String
api_package = "github.com/maulindesai/pprof-operator/api/v1"

-- The types that `init` registers.
abbrev pub profiler_type : GoType
profiler_type = record { import_path = api_package; name = "Profiler" }

abbrev pub profiler_list_type : GoType
profiler_list_type = record { import_path = api_package; name = "ProfilerList" }

-- `GroupVersion`.
unfoldable pub group_version : GroupVersion
group_version = record { group = "observability.pprof-operator.dev"; version = "v1" }

module _ (m : Machinery) where
  -- The builder that `SchemeBuilder` points to when the package is initialised: its variables come
  -- before `init`.
  unfoldable pub scheme_builder : m.Builder
  unfolding group_version
  scheme_builder = m.new_builder group_version

  -- The same builder after `init`.
  unfoldable pub registered_builder : m.Builder
  unfolding scheme_builder
  registered_builder = m.register (profiler_type ∷ profiler_list_type ∷ []) scheme_builder

  -- `AddToScheme` was taken from the pointer before `init`, and is called after it: it finds what
  -- `init` has registered.
  unfoldable pub add_to_scheme : m.Scheme → Result String m.Scheme
  unfolding registered_builder
  add_to_scheme = m.add_to_scheme registered_builder
