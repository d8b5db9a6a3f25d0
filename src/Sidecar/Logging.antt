-- ===== src/Sidecar/Logging.antt =====
-- The choice of the log level: `InitFromEnv` of sidecar/pkg/logging/logging.go. `build` says
-- whether zap can be built; if not, the logger discards everything.
use pprof_operator.Prelude.{Bool, ◌||◌, String, ◌==◌, if◌then◌else◌}

pub data Level : Type 0 where
  debug_level info_level warn_level error_level panic_level : Level

pub data Logger : Type 0 where
  production development : Level → Logger
  discard : Logger

-- The switch on LOG_LEVEL, with the default for an unknown word.
unfoldable pub level_of : String → Level
level_of v =
    if v == "debug"
    then debug_level
    else if v == "info" || v == ""
    then info_level
    else if v == "warn" || v == "warning"
    then warn_level
    else if v == "error"
    then error_level
    else if v == "panic"
    then panic_level
    else info_level

unfoldable pub init_from_env : (String → String) → Bool → Logger
unfolding level_of
init_from_env getenv build =
    let logger =
      if getenv "DEBUG" == "true"
      then development debug_level
      else production (level_of (getenv "LOG_LEVEL")) in
    if build then logger else discard
