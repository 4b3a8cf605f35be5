-- ===== src/Config.antt =====
-- internal/config/config.go: the tunables and their defaults. Durations are nanoseconds.
pub mod Validate
pub mod Env
pub mod File
use yb_doctor.Base.{String, Bool, false, List, [], ◌∷◌, ◌*◌, ◌^◌, ℕ, ℤ, pos}
use yb_doctor.Float.{Float64, whole}

pub record FlagSpec : Type 0 where
  pub name : String
  pub default : String
  pub topic : String

pub record Thresholds (F : Type 0) : Type 0 where
  pub leader_imbalance_ratio : F
  pub tablet_imbalance_ratio : F
  pub slow_follower_lag : ℤ
  pub disk_warn_percent : F
  pub disk_high_percent : F
  pub compaction_high_bytes : ℤ
  pub compaction_sst_ratio : F
  pub sst_imbalance_ratio : F
  pub hot_tablet_ops_ratio : F
  pub p99_warn_ms : F

pub record Scoring : Type 0 where
  pub start : ℤ
  pub leaderless_tablet : ℤ
  pub leaderless_cap : ℤ
  pub under_replicated_tablet : ℤ
  pub under_replicated_cap : ℤ
  pub dead_tserver : ℤ
  pub dead_master : ℤ
  pub leader_imbalance : ℤ
  pub tablet_imbalance : ℤ
  pub sst_imbalance : ℤ
  pub compaction_high : ℤ
  pub slow_follower : ℤ
  pub slow_follower_cap : ℤ
  pub disk_high : ℤ
  pub p99_warn : ℤ

pub record Config (F : Type 0) : Type 0 where
  pub masters : List String
  pub scenario : String
  pub format : String
  pub log_level : String
  pub no_color : Bool
  pub http_timeout : ℤ
  pub collect_timeout : ℤ
  pub max_concurrency : ℤ
  pub tls_ca_file : String
  pub tls_skip_verify : Bool
  pub criteria_file : String
  pub loopback_tserver_port_base : ℤ
  pub ysql_addr : String
  pub ysql_user : String
  pub ysql_password : String
  pub ysql_database : String
  pub ysql_ssl_mode : String
  pub ysql_timeout : ℤ
  pub watch_duration : ℤ
  pub watch_interval : ℤ
  pub diff_file : String
  pub out_file : String
  pub thresholds : Thresholds F
  pub scoring : Scoring
  pub flag_allowlist : List FlagSpec

abbrev pub flag_topic_compaction : String
flag_topic_compaction = "compaction"

abbrev pub flag_topic_memory : String
flag_topic_memory = "memory"

abbrev pub flag_topic_splitting : String
flag_topic_splitting = "splitting"

abbrev pub flag_topic_storage : String
flag_topic_storage = "storage"

abbrev flag : String → String → String → FlagSpec
flag n d t = record { name = n; default = d; topic = t }

unfoldable pub default_flag_allowlist : List FlagSpec
default_flag_allowlist =
    flag "rocksdb_compact_flush_rate_limit_bytes_per_sec" "1073741824" flag_topic_compaction
    ∷ flag "rocksdb_max_background_compactions" "-1" flag_topic_compaction
    ∷ flag "full_compaction_pool_max_threads" "1" flag_topic_compaction
    ∷ flag "use_memory_defaults_optimized_for_ysql" "true" flag_topic_memory
    ∷ flag "default_memory_limit_to_ram_ratio" "0.85" flag_topic_memory
    ∷ flag "enable_automatic_tablet_splitting" "true" flag_topic_splitting
    ∷ flag "ysql_enable_packed_row" "true" flag_topic_storage
    ∷ flag "yb_enable_read_committed_isolation" "true" flag_topic_storage
    ∷ []

abbrev seconds : ℕ → ℤ
seconds n = pos (n * 10 ^ 9)

unfoldable pub default_scoring : Scoring
default_scoring = record {
  start = pos 100;
  leaderless_tablet = pos 15;
  leaderless_cap = pos 40;
  under_replicated_tablet = pos 5;
  under_replicated_cap = pos 25;
  dead_tserver = pos 20;
  dead_master = pos 25;
  leader_imbalance = pos 8;
  tablet_imbalance = pos 6;
  sst_imbalance = pos 6;
  compaction_high = pos 12;
  slow_follower = pos 0;
  slow_follower_cap = pos 8;
  disk_high = pos 10;
  p99_warn = pos 2;
}

module _ {F : Type 0} ⦃f : Float64 F⦄ where
  unfoldable pub default_thresholds : Thresholds F
  default_thresholds = record {
    leader_imbalance_ratio = f.div (whole 3) (whole 2);
    tablet_imbalance_ratio = f.div (whole 5) (whole 4);
    slow_follower_lag = pos (1000 * 10 ^ 6);
    disk_warn_percent = whole 75;
    disk_high_percent = whole 85;
    compaction_high_bytes = pos (2 ^ 30);
    compaction_sst_ratio = f.div (whole 1) (whole 10);
    sst_imbalance_ratio = whole 3;
    hot_tablet_ops_ratio = whole 3;
    p99_warn_ms = whole 20;
  }

  unfoldable pub defaults : Config F
  unfolding default_scoring default_thresholds default_flag_allowlist
  defaults = record {
    masters = [];
    scenario = "";
    format = "text";
    log_level = "info";
    no_color = false;
    http_timeout = seconds 5;
    collect_timeout = seconds 20;
    max_concurrency = pos 8;
    tls_ca_file = "";
    tls_skip_verify = false;
    criteria_file = "";
    loopback_tserver_port_base = pos 9000;
    ysql_addr = "";
    ysql_user = "yugabyte";
    ysql_password = "";
    ysql_database = "yugabyte";
    ysql_ssl_mode = "disable";
    ysql_timeout = seconds 15;
    watch_duration = pos 0;
    watch_interval = seconds 3;
    diff_file = "";
    out_file = "";
    thresholds = default_thresholds;
    scoring = default_scoring;
    flag_allowlist = default_flag_allowlist;
  }
