-- ===== src/Config/File.antt =====
-- internal/config/file.go: `ResolveFile`, `WithFile` and `applyFile`. The file system and the TOML decoder
-- are parameters; `time.ParseDuration` is one too.
pub mod Overlay
use yb_doctor.Base.{
  String, Bool, true, false, ◌||◌, not, List, [], ◌∷◌, length, ◌==◌, ℤ, pos, ltb_ℤ, str_eq, concat,
  if◌then◌else◌, Result, ok, err, and_then, ◌>>=◌,
}
use yb_doctor.Config.{Config}

pub record FileYsql : Type 0 where
  pub addr : String
  pub user : String
  pub password : String
  pub database : String
  pub ssl_mode : String
  pub timeout : String

pub record FileWatch : Type 0 where
  pub duration : String
  pub interval : String

pub record FileConfig : Type 0 where
  pub masters : List String
  pub scenario : String
  pub format : String
  pub log_level : String
  pub no_color : Bool
  pub http_timeout : String
  pub tls_ca_file : String
  pub tls_skip : Bool
  pub criteria : String
  pub tserver_base : ℤ
  pub ysql : FileYsql
  pub watch : FileWatch

-- `DefaultFileName`
abbrev pub default_file_name : String
default_file_name = "yb-doctor.toml"

-- `exists` says of a path that it names a file that is no directory.
unfoldable pub resolve_file : String → (String → String) → (String → Bool) → String
resolve_file flag_path getenv exists =
    if not (str_eq flag_path "")
    then flag_path
    else if not (str_eq (getenv "YB_DOCTOR_CONFIG") "")
    then getenv "YB_DOCTOR_CONFIG"
    else if exists default_file_name
    then default_file_name
    else ""

-- `if v != "" { field = v }`
abbrev pub override : String → String → String
override v old = if str_eq v "" then old else v

module _ {F : Type 0} where
  -- The fields with a text or a flag.
  unfoldable pub plain_fields : FileConfig → Config F → Config F
  plain_fields fc c = record c {
    masters = if length fc.masters == 0 then c.masters else fc.masters;
    scenario = override fc.scenario c.scenario;
    format = override fc.format c.format;
    log_level = override fc.log_level c.log_level;
    no_color = fc.no_color || c.no_color;
    tls_ca_file = override fc.tls_ca_file c.tls_ca_file;
    tls_skip_verify = fc.tls_skip || c.tls_skip_verify;
    criteria_file = override fc.criteria c.criteria_file;
    loopback_tserver_port_base =
        if ltb_ℤ (pos 0) fc.tserver_base then fc.tserver_base else c.loopback_tserver_port_base;
    ysql_addr = override fc.ysql.addr c.ysql_addr;
    ysql_user = override fc.ysql.user c.ysql_user;
    ysql_password = override fc.ysql.password c.ysql_password;
    ysql_database = override fc.ysql.database c.ysql_database;
    ysql_ssl_mode = override fc.ysql.ssl_mode c.ysql_ssl_mode;
  }

module _ (parse_duration : String → Result ℤ) where
  -- `if v != "" { d, err := time.ParseDuration(v); … }`
  unfoldable pub override_duration : String → String → ℤ → Result ℤ
  override_duration name v old =
      if str_eq v "" then ok old else and_then name (parse_duration v) (λ d. d)

  module _ {F : Type 0} where
    -- Each field is written once, and `Load` drops the configuration on an error, so that the writes
    -- stand together at the end.
    unfoldable pub apply_file : FileConfig → Config F → Result (Config F)
    apply_file fc c = do
      http ← override_duration "config file http_timeout" fc.http_timeout c.http_timeout
      ysql ← override_duration "config file ysql.timeout" fc.ysql.timeout c.ysql_timeout
      watch ← override_duration "config file watch.duration" fc.watch.duration c.watch_duration
      interval ← override_duration "config file watch.interval" fc.watch.interval c.watch_interval
      ok (record (plain_fields fc c) {
        http_timeout = http;
        ysql_timeout = ysql;
        watch_duration = watch;
        watch_interval = interval;
      })

    module _ (read_file : String → Result String) (decode : String → Result FileConfig) where
      unfoldable pub with_file : String → Config F → Result (Config F)
      with_file path c = if str_eq path "" then ok c else do
        raw ← and_then "read config file" (read_file path) (λ s. s)
        fc ← and_then "parse config file" (decode raw) (λ x. x)
        apply_file fc c
