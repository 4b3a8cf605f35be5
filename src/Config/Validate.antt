-- ===== src/Config/Validate.antt =====
-- internal/config/config.go: `Validate`. The joined errors are the list of their kinds, in order; each
-- kind stands for one message, with the value that the message quotes.
pub mod Accepted
use yb_doctor.Base.{
  String, Bool, true, false, ◌≡◌, ◌↔◌, ◌&&◌, ◌||◌, not, List, [], ◌∷◌, ◌++◌, length, any, ◌==◌, ℤ,
  pos, leb_ℤ, ltb_ℤ, str_eq, trim_space, to_lower, contains, arith, if◌then◌else◌,
}
use yb_doctor.Float.{Float64, nought, whole}
use yb_doctor.Config.{Config, Thresholds, Scoring}

pub data ConfigError : Type 0 where
  no_source http_timeout_low collect_timeout_low concurrency_low port_base_low ysql_addr_bad
        ysql_timeout_low watch_duration_low watch_interval_low leader_ratio_low tablet_ratio_low
        sst_ratio_low compaction_ratio_low start_low :
      ConfigError
  format_bad log_level_bad ssl_mode_bad : String → ConfigError

-- `switch strings.ToLower(v) { case … }`.
abbrev pub one_of : String → List String → Bool
one_of v words = any (λ w. str_eq (to_lower v) w) words

abbrev pub error_if : Bool → ConfigError → List ConfigError
error_if test e = if test then e ∷ [] else []

abbrev pub joined : List (Bool × ConfigError) → List ConfigError
joined [] = []
joined ((test, e) ∷ rest) = error_if test e ++ joined rest

module _ {F : Type 0} ⦃f : Float64 F⦄ where
  -- The tests, in order, each with its error.
  unfoldable pub faults : Config F → List (Bool × ConfigError)
  faults c =
      (length c.masters == 0 && str_eq (trim_space c.scenario) "", no_source)
      ∷ (not (one_of c.format ("text" ∷ "json" ∷ [])), format_bad c.format)
      ∷ (
        not (one_of c.log_level ("debug" ∷ "info" ∷ "warn" ∷ "error" ∷ [])),
        log_level_bad c.log_level,
      )
      ∷ (leb_ℤ c.http_timeout (pos 0), http_timeout_low)
      ∷ (leb_ℤ c.collect_timeout (pos 0), collect_timeout_low)
      ∷ (ltb_ℤ c.max_concurrency (pos 1), concurrency_low)
      ∷ (ltb_ℤ c.loopback_tserver_port_base (pos 1), port_base_low)
      ∷ (not (str_eq c.ysql_addr "") && not (contains c.ysql_addr ":"), ysql_addr_bad)
      ∷ (
        not (
            one_of c.ysql_ssl_mode
              ("" ∷ "disable" ∷ "allow" ∷ "prefer" ∷ "require" ∷ "verify-ca" ∷ "verify-full" ∷ [])),
        ssl_mode_bad c.ysql_ssl_mode,
      )
      ∷ (ltb_ℤ c.ysql_timeout (pos 0), ysql_timeout_low)
      ∷ (ltb_ℤ c.watch_duration (pos 0), watch_duration_low)
      ∷ (leb_ℤ c.watch_interval (pos 0), watch_interval_low)
      ∷ (f.lt c.thresholds.leader_imbalance_ratio (whole 1), leader_ratio_low)
      ∷ (f.lt c.thresholds.tablet_imbalance_ratio (whole 1), tablet_ratio_low)
      ∷ (f.lt c.thresholds.sst_imbalance_ratio (whole 1), sst_ratio_low)
      ∷ (f.le c.thresholds.compaction_sst_ratio nought, compaction_ratio_low)
      ∷ (leb_ℤ c.scoring.start (pos 0), start_low)
      ∷ []

  unfoldable pub validate : Config F → List ConfigError
  validate c = joined (faults c)
