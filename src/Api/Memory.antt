-- ===== src/Api/Memory.antt =====
-- The Profiler resource as it lies in memory: the structures of api/v1/profiler_types.go with their
-- pointers, and a heap in which a new cell is put behind the others. A slice is a pointer to the
-- cell of its elements. `ObjectMeta` stands for its name; what else it points to is copied by the
-- API machinery.
use pprof_operator.Prelude.{
  ℕ, ◌≡◌, refl, Option, none, some, List, [], ◌∷◌, ◌++◌, String, length, get_elem?,
}
use pprof_operator.Prelude.Int.{ℤ}
use pprof_operator.Api.{SecretRef, AuthType, ProfileRecord}

pub record StoredBasicAuth : Type 0 where
  pub username : String
  pub password : String
  pub secret_ref : Option ℕ

pub record StoredAuth : Type 0 where
  pub type : AuthType
  pub basic_auth : Option ℕ

pub record StoredScrapTarget : Type 0 where
  pub scrape_url : String
  pub auth : Option ℕ

pub record StoredSpec : Type 0 where
  pub cpu_threshold : Option ℕ
  pub memory_threshold : Option ℕ
  pub monitoring_period : ℤ
  pub s3_bucket : String
  pub s3_region : String
  pub s3_path_prefix : String
  pub aws_credentials_secret : String
  pub aws_access_key_id : String
  pub aws_secret_access_key : String
  pub scrap_target : Option ℕ

pub record StoredStatus : Type 0 where
  pub profiles : Option ℕ

pub record StoredProfiler : Type 0 where
  pub name : String
  pub spec : StoredSpec
  pub status : StoredStatus

pub record StoredList : Type 0 where
  pub items : Option ℕ

pub data Cell : Type 0 where
  int32 : ℤ → Cell
  secret : SecretRef → Cell
  basic : StoredBasicAuth → Cell
  auth : StoredAuth → Cell
  target : StoredScrapTarget → Cell
  profile_record : ProfileRecord → Cell
  records : List ProfileRecord → Cell
  spec : StoredSpec → Cell
  status : StoredStatus → Cell
  profiler : StoredProfiler → Cell
  profilers : List StoredProfiler → Cell
  profiler_list : StoredList → Cell

abbrev pub Heap : Type 0
Heap = List Cell

-- The type of a cell: a pointer is typed, so that a cell of another type is not read through it.
pub record Kind (S : Type 0) : Type 0 where
  pub wrap : S → Cell
  pub unwrap : Cell → Option S
  pub unwrap-wrap : (s : S) → unwrap (wrap s) ≡ some s

abbrev pub and_then : {A B : Type 0} → Option A → (A → Option B) → Option B
and_then none f = none
and_then (some a) f = f a

-- What a function does with the memory; `none` is a pointer that points nowhere.
abbrev pub Action : Type 0 → Type 0
Action A = Heap → Option (A × Heap)

infixl 5 ◌>>=◌
abbrev pub ◌>>=◌ : {A B : Type 0} → Action A → (A → Action B) → Action B
◌>>=◌ first rest h = and_then (first h) (λ (a, h'). rest a h')

-- The memory as it is.
abbrev pub return : {A : Type 0} → A → Action A
return a h = some (a, h)

abbrev pub read : {S : Type 0} → Kind S → Heap → ℕ → Option S
read k h p = and_then (get_elem? h p) k.unwrap

abbrev pub load : {S : Type 0} → Kind S → ℕ → Action S
load k p h = and_then (read k h p) (λ s. some (s, h))

-- `new`, with the value that is written into the cell before anyone else sees the pointer.
abbrev pub new : {S : Type 0} → Kind S → S → Action ℕ
new k s h = some (length h, h ++ (k.wrap s ∷ []))

abbrev pub ints : Kind ℤ
ints = record {
  wrap = int32;
  unwrap = λ c. elim c [ int32 v ↦ some v | _ ↦ none ];
  unwrap-wrap = λ s. refl;
}

abbrev pub secrets : Kind SecretRef
secrets = record {
  wrap = secret;
  unwrap = λ c. elim c [ secret v ↦ some v | _ ↦ none ];
  unwrap-wrap = λ s. refl;
}

abbrev pub basics : Kind StoredBasicAuth
basics = record {
  wrap = basic;
  unwrap = λ c. elim c [ basic v ↦ some v | _ ↦ none ];
  unwrap-wrap = λ s. refl;
}

abbrev pub auths : Kind StoredAuth
auths = record {
  wrap = auth;
  unwrap = λ c. elim c [ auth v ↦ some v | _ ↦ none ];
  unwrap-wrap = λ s. refl;
}

abbrev pub targets : Kind StoredScrapTarget
targets = record {
  wrap = target;
  unwrap = λ c. elim c [ target v ↦ some v | _ ↦ none ];
  unwrap-wrap = λ s. refl;
}

abbrev pub record_arrays : Kind (List ProfileRecord)
record_arrays = record {
  wrap = records;
  unwrap = λ c. elim c [ records v ↦ some v | _ ↦ none ];
  unwrap-wrap = λ s. refl;
}

abbrev pub profiler_cells : Kind StoredProfiler
profiler_cells = record {
  wrap = profiler;
  unwrap = λ c. elim c [ profiler v ↦ some v | _ ↦ none ];
  unwrap-wrap = λ s. refl;
}

abbrev pub profiler_arrays : Kind (List StoredProfiler)
profiler_arrays = record {
  wrap = profilers;
  unwrap = λ c. elim c [ profilers v ↦ some v | _ ↦ none ];
  unwrap-wrap = λ s. refl;
}

abbrev pub lists : Kind StoredList
lists = record {
  wrap = profiler_list;
  unwrap = λ c. elim c [ profiler_list v ↦ some v | _ ↦ none ];
  unwrap-wrap = λ s. refl;
}

abbrev pub record_cells : Kind ProfileRecord
record_cells = record {
  wrap = profile_record;
  unwrap = λ c. elim c [ profile_record v ↦ some v | _ ↦ none ];
  unwrap-wrap = λ s. refl;
}

abbrev pub spec_cells : Kind StoredSpec
spec_cells = record {
  wrap = spec;
  unwrap = λ c. elim c [ spec v ↦ some v | _ ↦ none ];
  unwrap-wrap = λ s. refl;
}

abbrev pub status_cells : Kind StoredStatus
status_cells = record {
  wrap = status;
  unwrap = λ c. elim c [ status v ↦ some v | _ ↦ none ];
  unwrap-wrap = λ s. refl;
}
