-- ===== src/Cli/Flags.antt =====
-- internal/adapter/inbound/cli/root.go: `withFlags`, and the sources that `buildService` loads.
use yb_doctor.Base.{
  String, Bool, ◌||◌, [], ◌∷◌, ℤ, pos, ltb_ℤ, str_eq, if◌then◌else◌, Result, ok, to_lower,
}
use yb_doctor.Float.{Float64}
use yb_doctor.Config.{Config}
use yb_doctor.Config.Env.{split_csv, load, with_env}
use yb_doctor.Config.File.{FileConfig, override, resolve_file, with_file}

pub record RuntimeFlags : Type 0 where
  pub config_file : String
  pub masters : String
  pub scenario : String
  pub format : String
  pub no_color : Bool
  pub log_level : String
  pub criteria : String
  pub ysql : String
  pub ysql_user : String
  pub ysql_password : String
  pub ysql_db : String
  pub ysql_ssl_mode : String
  pub diff_file : String
  pub out_file : String
  pub watch : ℤ
  pub watch_interval : ℤ

module _ {F : Type 0} where
  -- Each flag writes a field of its own, so that the writes stand together.
  unfoldable pub with_flags : RuntimeFlags → Config F → Result (Config F)
  with_flags flags c = ok (record c {
    masters = if str_eq flags.masters "" then c.masters else split_csv flags.masters;
    scenario = override flags.scenario c.scenario;
    format = if str_eq flags.format "" then c.format else to_lower flags.format;
    no_color = flags.no_color || c.no_color;
    log_level = if str_eq flags.log_level "" then c.log_level else to_lower flags.log_level;
    criteria_file = override flags.criteria c.criteria_file;
    ysql_addr = override flags.ysql c.ysql_addr;
    ysql_user = override flags.ysql_user c.ysql_user;
    ysql_password = override flags.ysql_password c.ysql_password;
    ysql_database = override flags.ysql_db c.ysql_database;
    ysql_ssl_mode = override flags.ysql_ssl_mode c.ysql_ssl_mode;
    diff_file = override flags.diff_file c.diff_file;
    out_file = override flags.out_file c.out_file;
    watch_duration = if ltb_ℤ (pos 0) flags.watch then flags.watch else c.watch_duration;
    watch_interval =
        if ltb_ℤ (pos 0) flags.watch_interval then flags.watch_interval else c.watch_interval;
  })

-- What the process gives: the parsers of the library, the environment and the files.
pub record System : Type 0 where
  pub parse_duration : String → Result ℤ
  pub parse_number : String → Result ℤ
  pub getenv : String → String
  pub exists : String → Bool
  pub read_file : String → Result String
  pub decode_toml : String → Result FileConfig

module _ {F : Type 0} ⦃f : Float64 F⦄ where
  -- The call of `config.Load` in `buildService`.
  unfoldable pub load_config : System → RuntimeFlags → Result (Config F)
  load_config sys flags = load (
      with_file sys.parse_duration sys.read_file sys.decode_toml
        (resolve_file flags.config_file sys.getenv sys.exists)
      ∷ with_env sys.parse_duration sys.parse_number sys.getenv
      ∷ with_flags flags
      ∷ [])
