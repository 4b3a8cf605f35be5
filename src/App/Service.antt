-- ===== src/App/Service.antt =====
-- internal/app/service.go, with the entries `Resilience` and `POC` of resilience.go and poc.go. The
-- collector is a parameter: a snapshot, or the text of an error.
pub mod Reports
use yb_doctor.Base.{
  Result, and_then, ℕ, Bool, none, List, length, ◌==◌, ltb, sort_by, str_ltb, if◌then◌else◌,
}
use yb_doctor.Float.{Float64}
use yb_doctor.Domain.Ids.{Severity, severity_high, severity_medium, severity_low}
use yb_doctor.Domain.Cluster.{Snapshot, healthy_masters, healthy_tservers, regions, zones}
use yb_doctor.Domain.Report.{
  Finding, TopologySummary, HealthReport, ResilienceReport, PocCriteria, PocReport,
}
use yb_doctor.Config.{Config}
use yb_doctor.App.Raft.{analyze_raft}
use yb_doctor.App.Tablets.{analyze_tablets}
use yb_doctor.App.Pressure.{analyze_performance}
use yb_doctor.App.Findings.{collect_findings}
use yb_doctor.App.Score.{score_report}
use yb_doctor.App.Resilience.{simulate_resilience}
use yb_doctor.App.Poc.{build_poc}

abbrev pub rank : Severity → ℕ
rank severity_high = 0
rank severity_medium = 1
rank severity_low = 2

unfoldable pub before_finding : Finding → Finding → Bool
before_finding x y =
    if rank x.severity == rank y.severity
    then str_ltb x.code y.code
    else ltb (rank x.severity) (rank y.severity)

unfoldable pub sort_findings : List Finding → List Finding
sort_findings = sort_by before_finding

module _ {F : Type 0} where
  unfoldable pub summarize_topology : Snapshot F → TopologySummary
  summarize_topology s =
      let (mh, mt) = healthy_masters s in
      let (th, total) = healthy_tservers s in
      record {
        nodes = length s.tservers;
        masters_healthy = mh;
        masters_total = mt;
        tservers_healthy = th;
        tservers_total = total;
        replication_factor = s.replication_factor;
        regions = regions s;
        zones = zones s;
      }

module _ {F : Type 0} ⦃f : Float64 F⦄ where
  unfoldable pub analyze_snapshot : Config F → Snapshot F → HealthReport F
  analyze_snapshot cfg s =
      let tablets = analyze_tablets s cfg.thresholds in
      let raft = analyze_raft s cfg.thresholds in
      let perf = analyze_performance s cfg.thresholds in
      let findings = sort_findings (collect_findings s tablets raft cfg) in
      record {
        snapshot = s;
        topology = summarize_topology s;
        tablets = tablets;
        raft = raft;
        performance = record perf { hot_tablets = tablets.hot_tablets };
        findings = findings;
        score = score_report findings raft cfg.scoring;
        diff = none;
      }

  unfoldable pub analyze : Config F → Result (Snapshot F) → Result (HealthReport F)
  analyze cfg collected = and_then "collect snapshot" collected (analyze_snapshot cfg)

  unfoldable pub resilience : Result (Snapshot F) → Result (ResilienceReport F)
  resilience collected = and_then "collect snapshot" collected simulate_resilience

  unfoldable pub poc : Config F → Result (Snapshot F) → PocCriteria F → Result (PocReport F)
  poc cfg collected criteria =
      and_then "collect snapshot" collected
        (λ s. build_poc (analyze_snapshot cfg s) (simulate_resilience s) criteria)
