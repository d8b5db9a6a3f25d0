-- ===== src/Kube.antt =====
-- The part of the Kubernetes types (`corev1`) that the program builds and reads. A quantity is the
-- text that it is parsed from. Fields that the program does not name are left out.
use pprof_operator.Prelude.{Option, none, some, List, String}
use pprof_operator.Prelude.Int.{ℤ}

-- `EnvVarSource`: the two kinds that the program sets.
pub data EnvVarSource : Type 0 where
  field_ref : (field_path : String) → EnvVarSource
  secret_key_ref : (secret key : String) → EnvVarSource

pub record EnvVar : Type 0 where
  pub name : String
  pub value : String
  pub value_from : Option EnvVarSource

-- `EnvVar{Name: name, Value: value}`.
abbrev pub literal : String → String → EnvVar
literal name value = record { name = name; value = value; value_from = none }

-- `EnvVar{Name: name, ValueFrom: &EnvVarSource{SecretKeyRef: …}}`.
abbrev pub from_secret : String → String → String → EnvVar
from_secret name secret key = record {
  name = name;
  value = "";
  value_from = some (secret_key_ref secret key);
}

pub record ContainerPort : Type 0 where
  pub name : String
  pub container_port : ℤ
  pub protocol : String

abbrev pub ResourceList : Type 0
ResourceList = List (String × String)

pub record ResourceRequirements : Type 0 where
  pub requests : ResourceList
  pub limits : ResourceList

pub record Container : Type 0 where
  pub name : String
  pub image : String
  pub image_pull_policy : String
  pub env : List EnvVar
  pub resources : ResourceRequirements
  pub ports : List ContainerPort

pub record Pod : Type 0 where
  pub name : String
  pub namespace : String
  pub annotations : List (String × String)
  pub containers : List Container
  pub node_name : String
