-- ===== src/Logging.antt =====
-- internal/observability/logging.go: the level of `NewLogger`. The logger itself is a third party's, and has no part in
-- a result.
use yb_doctor.Base.{String, str_eq, to_lower, if◌then◌else◌}

pub data Level : Type 0 where
  level_debug level_info level_warn level_error : Level

-- `switch strings.ToLower(level)`
abbrev log_level_of : String → Level
log_level_of level =
    let word = to_lower level in
    if str_eq word "debug"
    then level_debug
    else if str_eq word "warn"
    then level_warn
    else if str_eq word "error"
    then level_error
    else level_info
