-- ===== src/Api.antt =====
-- The Profiler resource: api/v1/profiler_types.go. A pointer is an `Option`; Api/Memory.antt has the
-- same types with their pointers.
pub mod Memory
pub mod DeepCopy
pub mod Scheme
use pprof_operator.Prelude.{Option, List, String}
use pprof_operator.Prelude.Int.{ℤ}

pub record SecretRef : Type 0 where
  pub name : String
  pub namespace : String
  pub username_key : String
  pub password_key : String

pub record BasicAuth : Type 0 where
  pub username : String
  pub password : String
  pub secret_ref : Option SecretRef

-- `AuthType` is a string; the API server admits "Basic" and "None".
abbrev pub AuthType : Type 0
AuthType = String

abbrev pub auth_type_basic : AuthType
auth_type_basic = "Basic"

pub record Auth : Type 0 where
  pub type : AuthType
  pub basic_auth : Option BasicAuth

pub record ScrapTarget : Type 0 where
  pub scrape_url : String
  pub auth : Option Auth

-- The thresholds and the period are `int32`.
pub record ProfilerSpec : Type 0 where
  pub cpu_threshold : Option ℤ
  pub memory_threshold : Option ℤ
  pub monitoring_period : ℤ
  pub s3_bucket : String
  pub s3_region : String
  pub s3_path_prefix : String
  pub aws_credentials_secret : String
  pub aws_access_key_id : String
  pub aws_secret_access_key : String
  pub scrap_target : Option ScrapTarget

-- A profile that was stored; the timestamp is in nanoseconds.
pub record ProfileRecord : Type 0 where
  pub timestamp : ℤ
  pub type : String
  pub s3_url : String
  pub reason : String

pub record ProfilerStatus : Type 0 where
  pub profiles : Option (List ProfileRecord)

-- Of the metadata the program reads the name. No code of the program but the deep copies reads or
-- writes the status, so it is not a field here.
pub record Profiler : Type 0 where
  pub name : String
  pub spec : ProfilerSpec

pub record ProfilerList : Type 0 where
  pub items : List Profiler
