-- ===== src/Config/Validate/Accepted.antt =====
-- internal/config/config.go: the configurations that `Validate` accepts.
use yb_doctor.Base.{
  refl, Bool, true, false, ◌≡◌, ◌↔◌, ◌&&◌, ◌||◌, List, [], ◌∷◌, All, length, ◌==◌, pos, ◌≤ℤ◌,
  str_eq, trim_space, contains, arith,
}
use yb_doctor.Float.{Float64, nought, whole}
use yb_doctor.Config.{Config}
use yb_doctor.Config.Validate.{ConfigError, one_of, joined, faults, validate}

joined-nil : (fs : List (Bool × ConfigError)) → (joined fs ≡ []) ↔ All (λ x. x.0 ≡ false) fs
joined-nil [] = (λ _. tt, λ _. refl)
joined-nil ((true, e) ∷ fs) = (λ h. absurd (cc), λ h. absurd (cc))
joined-nil ((false, e) ∷ fs) = (λ h. (refl, (joined-nil fs).0 h), λ h. (joined-nil fs).1 h.1)

-- A configuration is accepted exactly if it names a source, its words are known, its address has a
-- port, and its numbers are in range.
pub validate_accepts :
    {F : Type 0} ⦃f : Float64 F⦄ (c : Config F)
    → (validate c ≡ []) ↔ (
        ((length c.masters == 0 && str_eq (trim_space c.scenario) "") ≡ false)
        × (one_of c.format ("text" ∷ "json" ∷ []) ≡ true)
        × (one_of c.log_level ("debug" ∷ "info" ∷ "warn" ∷ "error" ∷ []) ≡ true)
        × (pos 1 ≤ℤ c.http_timeout)
        × (pos 1 ≤ℤ c.collect_timeout)
        × (pos 1 ≤ℤ c.max_concurrency)
        × (pos 1 ≤ℤ c.loopback_tserver_port_base)
        × ((str_eq c.ysql_addr "" || contains c.ysql_addr ":") ≡ true)
        × (one_of c.ysql_ssl_mode
              ("" ∷ "disable" ∷ "allow" ∷ "prefer" ∷ "require" ∷ "verify-ca" ∷ "verify-full" ∷ [])
            ≡ true)
        × (pos 0 ≤ℤ c.ysql_timeout)
        × (pos 0 ≤ℤ c.watch_duration)
        × (pos 1 ≤ℤ c.watch_interval)
        × (f.lt c.thresholds.leader_imbalance_ratio (whole 1) ≡ false)
        × (f.lt c.thresholds.tablet_imbalance_ratio (whole 1) ≡ false)
        × (f.lt c.thresholds.sst_imbalance_ratio (whole 1) ≡ false)
        × (f.le c.thresholds.compaction_sst_ratio nought ≡ false)
        × (pos 1 ≤ℤ c.scoring.start))
unfolding validate faults
validate_accepts ⦃f⦄ c = ground (arith, joined-nil (faults c))
