-- ===== src/Sidecar/Types.antt =====
-- The scrape target as the sidecar knows it: sidecar/pkg/types/types.go. The sidecar does not share
-- the types of the CRD, which Api.antt models.
use pprof_operator.Prelude.{Option, String}

pub record SecretRef : Type 0 where
  pub name : String
  pub namespace : String
  pub username_key : String
  pub password_key : String

pub record BasicAuth : Type 0 where
  pub username : String
  pub password : String
  pub secret_ref : Option SecretRef

abbrev pub AuthType : Type 0
AuthType = String

abbrev pub auth_type_basic : AuthType
auth_type_basic = "Basic"

pub record Auth : Type 0 where
  pub type : AuthType
  pub basic_auth : Option BasicAuth

pub record ScrapTarget : Type 0 where
  pub scrape_url : String
  pub auth : Option Auth
