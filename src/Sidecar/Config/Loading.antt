-- ===== src/Sidecar/Config/Loading.antt =====
-- When the configuration loads.
use pprof_operator.Prelude.{◌≡◌, ◌≢◌, ◌↔◌, true, ok, arith, eq_iff}
use pprof_operator.Sidecar.Config.{Config, Surroundings, config_of, load_config}

-- What `loadConfig` requires.
pub record IsReady (w : Surroundings) : Type 0 where
  pub target : w.getenv "TARGET_CONTAINER" ≢ ""
  pub bucket : w.getenv "S3_BUCKET" ≢ ""
  pub kubernetes_config : w.in_cluster_config ≡ true
  pub kubernetes_client : w.new_for_config ≡ true

pub load_config_of_ready : (w : Surroundings) → IsReady w → load_config w ≡ ok (config_of w)
unfolding load_config
load_config_of_ready w r =
    ground (arith, eq_iff (w.getenv "TARGET_CONTAINER") "", eq_iff (w.getenv "S3_BUCKET") "")

load_config-IsReady :
    (w : Surroundings) (c : Config) → load_config w ≡ ok c → IsReady w × (c ≡ config_of w)
unfolding load_config
load_config-IsReady w c h =
    ground (arith, eq_iff (w.getenv "TARGET_CONTAINER") "", eq_iff (w.getenv "S3_BUCKET") "")

-- The configuration loads exactly when a target container and a bucket are named and Kubernetes can
-- be reached; it is then the one that the environment spells. No malformed number stops it.
pub load_config_iff :
    (w : Surroundings) (c : Config) → (load_config w ≡ ok c) ↔ (IsReady w × (c ≡ config_of w))
load_config_iff w c = (load_config-IsReady w c, λ (r, e). rw e (load_config_of_ready w r))
