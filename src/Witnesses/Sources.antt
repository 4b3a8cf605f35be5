-- ===== src/Witnesses/Sources.antt =====
-- Sources of the configuration, and explanations on a small universe.
use yb_doctor.Base.{
  String, true, false, ◌≡◌, refl, ℤ, pos, str_eq, if◌then◌else◌, Result, ok, err, is_err, to_lower,
  trim_space, sort_by, insert_by,
}
use yb_doctor.Float.{Fraction, fraction_float}
use yb_doctor.Domain.Ids.{code_dead_tserver}
use yb_doctor.Config.{Config, defaults, default_thresholds}
use yb_doctor.Config.Env.{load, load_from, read_rows, env_rows, apply_effect, with_env}
use yb_doctor.Config.File.{
  FileConfig, apply_file, override_duration, plain_fields, resolve_file, with_file,
}
use yb_doctor.Config.File.Overlay.{empty_file}
use yb_doctor.Cli.Flags.{RuntimeFlags, System, with_flags, load_config}
use yb_doctor.Cli.Precedence.{load_config_precedence}
use yb_doctor.App.Raft.{analyze_raft}
use yb_doctor.App.Tablets.{analyze_tablets}
use yb_doctor.App.Findings.Codes.{due, collect_findings_exact}
use yb_doctor.App.Explain.{catalog, explain, known_finding_codes}
use yb_doctor.App.Explain.Covered.{explain_fails, reported_explained}
use yb_doctor.Witnesses.Data.{town}

abbrev refuse : String → Result ℤ
refuse v = err "invalid"

abbrev file : FileConfig
file = record empty_file { scenario = "healthy"; criteria = "c.toml" }

abbrev pub sys : System
sys = record {
  parse_duration = refuse;
  parse_number = refuse;
  getenv = λ name. if str_eq name "YB_DOCTOR_SCENARIO" then "split" else "";
  exists = λ _. false;
  read_file = λ _. ok "raw";
  decode_toml = λ _. ok file;
}

abbrev pub flags : RuntimeFlags
flags = record {
  config_file = "x.toml";
  masters = "";
  scenario = "";
  format = "";
  no_color = false;
  log_level = "";
  criteria = "";
  ysql = "h:5433";
  ysql_user = "";
  ysql_password = "";
  ysql_db = "";
  ysql_ssl_mode = "";
  diff_file = "";
  out_file = "";
  watch = pos 0;
  watch_interval = pos 0;
}

abbrev pub loaded : Config Fraction
loaded = record defaults { scenario = "split"; criteria_file = "c.toml"; ysql_addr = "h:5433" }

load_config_precedence_example : loaded.scenario ≡ "split"
unfolding load_config load with_file with_env with_flags apply_file plain_fields override_duration
    resolve_file defaults load_from read_rows env_rows apply_effect
load_config_precedence_example =
    (load_config_precedence sys flags "raw" file loaded refl refl refl refl).0

explain_fails_example :
    is_err (explain (λ s. s) (defaults {F = Fraction}) (err "down") " nonsense ") ≡ true
unfolding known_finding_codes catalog to_lower trim_space sort_by insert_by
explain_fails_example = explain_fails (λ s. s) defaults (err "down") " nonsense "

reported_explained_example :
    is_err (explain (λ s. s) (defaults {F = Fraction}) (ok town) code_dead_tserver) ≡ false
unfolding due
reported_explained_example =
    reported_explained (λ s. s) defaults (ok town) code_dead_tserver town
      (analyze_tablets town default_thresholds) (analyze_raft town default_thresholds)
      (collect_findings_exact code_dead_tserver town (analyze_tablets town default_thresholds)
        (analyze_raft town default_thresholds) defaults)
