-- ===== src/Domain/Report.antt =====
-- internal/domain/report.go, diff.go and resilience.go: the reports.
use yb_doctor.Base.{ℕ, String, Bool, true, List, Option, ℤ, pos}
use yb_doctor.Float.{Float64, whole}
use yb_doctor.Domain.Ids.{NodeId, FindingCode, Severity, CheckStatus}
use yb_doctor.Domain.Cluster.{Snapshot, Workload}

pub record Finding : Type 0 where
  pub severity : Severity
  pub code : FindingCode
  pub title : String
  pub summary : String
  pub evidence : List String
  pub node : String

pub record TopologySummary : Type 0 where
  pub nodes : ℕ
  pub masters_healthy : ℕ
  pub masters_total : ℕ
  pub tservers_healthy : ℕ
  pub tservers_total : ℕ
  pub replication_factor : ℤ
  pub regions : List String
  pub zones : List String

pub record NodeTabletStats : Type 0 where
  pub name : String
  pub node_id : NodeId
  pub leaders : ℕ
  pub followers : ℕ
  pub total : ℕ
  pub sst_bytes : ℤ
  pub pending_compaction_bytes : ℤ

pub record TabletSummary (F : Type 0) : Type 0 where
  pub total : ℕ
  pub under_replicated : ℕ
  pub leaderless : ℕ
  pub leader_imbalance : CheckStatus
  pub tablet_imbalance : CheckStatus
  pub hot_tablets : ℕ
  pub per_node : List NodeTabletStats
  pub leader_ratio : F
  pub tablet_ratio : F
  pub hottest_node : String
  pub coldest_node : String
  pub sst_imbalance : CheckStatus
  pub sst_ratio : F
  pub sst_hottest_node : String
  pub sst_coldest_node : String

pub record RaftSummary : Type 0 where
  pub leaderless : ℕ
  pub under_replicated : ℕ
  pub slow_followers : ℕ
  pub failed_peers : ℕ

pub record PerformanceSummary (F : Type 0) : Type 0 where
  pub p99_ysql_ms : F
  pub p99_source : String
  pub slow_queries : ℤ
  pub hot_tablets : ℕ
  pub compaction_pressure : String
  pub compaction_nodes : List String

pub record NodeCountDelta : Type 0 where
  pub name : String
  pub from : ℕ
  pub to : ℕ

pub record HealthDiff (F : Type 0) : Type 0 where
  pub baseline : String
  pub score_from : ℤ
  pub score_to : ℤ
  pub masters_from : String
  pub masters_to : String
  pub tservers_from : String
  pub tservers_to : String
  pub under_replicated_from : ℕ
  pub under_replicated_to : ℕ
  pub leaderless_from : ℕ
  pub leaderless_to : ℕ
  pub p99_from : F
  pub p99_to : F
  pub findings_added : List FindingCode
  pub findings_removed : List FindingCode
  pub leaders : List NodeCountDelta

pub record HealthReport (F : Type 0) : Type 0 where
  pub snapshot : Snapshot F
  pub topology : TopologySummary
  pub tablets : TabletSummary F
  pub raft : RaftSummary
  pub performance : PerformanceSummary F
  pub findings : List Finding
  pub score : ℤ
  pub diff : Option (HealthDiff F)

pub record AzBranch : Type 0 where
  pub name : String
  pub nodes : List String

pub record RegionBranch : Type 0 where
  pub name : String
  pub zones : List AzBranch

pub record FailureSim : Type 0 where
  pub name : String
  pub kind : String
  pub lost : List String
  pub status : CheckStatus
  pub tablets_failed : ℕ
  pub reason : String

pub record ResilienceReport (F : Type 0) : Type 0 where
  pub snapshot : Snapshot F
  pub topology_tree : List RegionBranch
  pub simulations : List FailureSim
  pub rpo : String
  pub recommendation : String

pub record PocCriteria (F : Type 0) : Type 0 where
  pub name : String
  pub min_nodes : ℤ
  pub min_azs : ℤ
  pub replication_factor : ℤ
  pub tolerate_node_failure : Bool
  pub tolerate_az_failure : Bool
  pub max_p99_ysql_ms : F
  pub min_tps : F
  pub balanced_tablets : Bool
  pub balanced_leaders : Bool

unfoldable pub default_poc_criteria : {F : Type 0} ⦃f : Float64 F⦄ → PocCriteria F
default_poc_criteria = record {
  name = "YugabyteDB POC";
  min_nodes = pos 3;
  min_azs = pos 3;
  replication_factor = pos 3;
  tolerate_node_failure = true;
  tolerate_az_failure = true;
  max_p99_ysql_ms = whole 20;
  min_tps = whole 0;
  balanced_tablets = true;
  balanced_leaders = true;
}

pub record PocCheck : Type 0 where
  pub name : String
  pub status : CheckStatus
  pub detail : String

pub record PocReport (F : Type 0) : Type 0 where
  pub criteria : PocCriteria F
  pub workload : Workload F
  pub nodes : ℕ
  pub regions : ℕ
  pub azs : ℕ
  pub rf : ℤ
  pub checks : List PocCheck
  pub passed : ℕ
  pub total : ℕ
  pub result_line : String

-- internal/domain/resilience.go: `Explanation`
pub record Explanation : Type 0 where
  pub code : FindingCode
  pub what : String
  pub why_it_matters : String
  pub current_cluster : List String
  pub possible_causes : List String
  pub next_steps : List String
