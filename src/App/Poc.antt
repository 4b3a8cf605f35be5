-- ===== src/App/Poc.antt =====
-- internal/app/poc.go: the acceptance criteria. `Service.POC` itself is in App/Service.
pub mod Verdict
use yb_doctor.Base.{
  ℕ, String, Bool, true, false, ◌&&◌, ◌||◌, not, Option, none, some, List, [], ◌∷◌, ◌++◌, length,
  count, ℤ, pos, leb_ℤ, show_ℕ, show_ℤ, str_eq, concat, if◌then◌else◌,
}
use yb_doctor.Float.{Float64, nought, ge, gt}
use yb_doctor.Domain.Ids.{
  CheckStatus, check_pass, check_fail, check_warn, is_pass, is_fail, check_text,
}
use yb_doctor.Domain.Report.{
  FailureSim, HealthReport, ResilienceReport, PocCriteria, PocCheck, PocReport,
  default_poc_criteria,
}

abbrev pub check : String → CheckStatus → String → PocCheck
check name status detail = record { name = name; status = status; detail = detail }

unfoldable pub status_check : String → Bool → String → PocCheck
status_check name ok detail = check name (if ok then check_pass else check_fail) detail

-- The loop of `simKindPassed`: the flag `seen`, and an early return at the first failure.
unfoldable pub scan_kind : String → List FailureSim → Bool → Bool × String
scan_kind kind [] seen =
    if seen then (true, "quorum retained") else (false, concat ("no " ∷ kind ∷ " simulations" ∷ []))
scan_kind kind (f ∷ fs) seen =
    let skip = not (str_eq f.kind kind) in
    let rest = scan_kind kind fs (seen || not skip) in
    if skip then rest else if is_fail f.status then (false, f.reason) else rest

module _ {F : Type 0} ⦃f : Float64 F⦄ where
  unfoldable pub sim_kind_passed : ResilienceReport F → String → Bool × String
  sim_kind_passed res kind = scan_kind kind res.simulations false

  -- The check of a kind of failure, if the criteria ask for it.
  unfoldable pub failure_checks : Bool → String → String → ResilienceReport F → List PocCheck
  failure_checks asked name kind res =
      let passed = sim_kind_passed res kind in
      if asked then status_check name passed.0 passed.1 ∷ [] else []

  unfoldable pub p99_checks : F → F → List PocCheck
  p99_checks p99 limit =
      let ok = gt p99 nought && f.le p99 limit in
      let detail =
        if f.eq p99 nought
        then "P99 not sampled"
        else concat ("P99=" ∷ f.fixed 0 p99 ∷ "ms (requirement <" ∷ f.fixed 0 limit ∷ "ms)" ∷ []) in
      if gt limit nought
      then check (concat ("P99 < " ∷ f.fixed 0 limit ∷ "ms requirement" ∷ []))
          (if ok then check_pass else check_warn) detail
        ∷ []
      else []

  unfoldable pub tps_checks : F → F → List PocCheck
  tps_checks tps least =
      if gt least nought
      then check (concat (f.fixed 0 least ∷ " TPS requirement" ∷ []))
          (if ge tps least then check_pass else check_warn)
          (concat ("observed " ∷ f.fixed 0 tps ∷ " TPS" ∷ []))
        ∷ []
      else []

  unfoldable pub poc_checks : HealthReport F → ResilienceReport F → PocCriteria F → List PocCheck
  poc_checks h res c =
      let azs = length h.topology.zones in
      let tablets = h.tablets.tablet_imbalance in
      let leaders = h.tablets.leader_imbalance in
      (status_check "Node count" (leb_ℤ c.min_nodes (pos h.topology.tservers_total)) (
          concat
            (show_ℕ h.topology.tservers_total ∷ " nodes (min " ∷ show_ℤ c.min_nodes ∷ ")" ∷ []))
        ∷ status_check "AZ count" (leb_ℤ c.min_azs (pos azs))
            (concat (show_ℕ azs ∷ " AZs (min " ∷ show_ℤ c.min_azs ∷ ")" ∷ []))
        ∷ status_check "RF validation" (leb_ℤ c.replication_factor h.topology.replication_factor) (
            concat (
              "RF="
              ∷ show_ℤ h.topology.replication_factor
              ∷ " (required "
              ∷ show_ℤ c.replication_factor
              ∷ ")"
              ∷ []))
        ∷ [])
      ++ (failure_checks c.tolerate_node_failure "Node failure" "node" res
          ++ (failure_checks c.tolerate_az_failure "AZ failure" "az" res
              ++ ((status_check "Tablet distribution" (not c.balanced_tablets || is_pass tablets)
                      (check_text tablets)
                    ∷ status_check "Leader distribution" (not c.balanced_leaders || is_pass leaders)
                        (check_text leaders)
                    ∷ [])
                  ++ (p99_checks h.performance.p99_ysql_ms c.max_p99_ysql_ms
                      ++ tps_checks h.snapshot.workload.tps c.min_tps))))

  -- Criteria with no name are replaced by the default ones.
  unfoldable pub named_criteria : PocCriteria F → PocCriteria F
  named_criteria c = if str_eq c.name "" then default_poc_criteria else c

  unfoldable pub build_poc : HealthReport F → ResilienceReport F → PocCriteria F → PocReport F
  build_poc h res given =
      let c = named_criteria given in
      let checks = poc_checks h res c in
      let passed = count (λ k. is_pass k.status) checks in
      record {
        criteria = c;
        workload = h.snapshot.workload;
        nodes = h.topology.tservers_total;
        regions = length h.topology.regions;
        azs = length h.topology.zones;
        rf = h.topology.replication_factor;
        checks = checks;
        passed = passed;
        total = length checks;
        result_line =
            concat
              (show_ℕ passed ∷ "/" ∷ show_ℕ (length checks) ∷ " acceptance criteria passed." ∷ []);
      }
