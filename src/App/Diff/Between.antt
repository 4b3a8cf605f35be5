-- ===== src/App/Diff/Between.antt =====
-- internal/app/diff.go: the difference of two reports, field by field.
use yb_doctor.Base.{ℕ, String, ◌≡◌, refl, ◌&&◌, not, any, has, ◌==◌, if◌then◌else◌}
use yb_doctor.Domain.Ids.{FindingCode}
use yb_doctor.Domain.Report.{HealthReport, HealthDiff}
use yb_doctor.App.Diff.{ratio, diff_of}
use yb_doctor.App.Diff.Delta.{codes, times, finding_delta_exact}
use yb_doctor.App.Diff.Leaders.{is_change, last_leaders, leader_deltas_exact}

-- The difference goes from the first report to the second: its numbers are theirs, it lists a code once exactly if one
-- report has it and the other does not, and a change of a node's leaders exactly if the reports give the node these
-- numbers, which differ.
pub record IsBetween {F : Type 0} (prev curr : HealthReport F) (d : HealthDiff F) : Type 0 where
  pub score_from : d.score_from ≡ prev.score
  pub score_to : d.score_to ≡ curr.score
  pub masters_from :
      d.masters_from ≡ ratio prev.topology.masters_healthy prev.topology.masters_total
  pub masters_to : d.masters_to ≡ ratio curr.topology.masters_healthy curr.topology.masters_total
  pub tservers_from :
      d.tservers_from ≡ ratio prev.topology.tservers_healthy prev.topology.tservers_total
  pub tservers_to :
      d.tservers_to ≡ ratio curr.topology.tservers_healthy curr.topology.tservers_total
  pub under_replicated_from : d.under_replicated_from ≡ prev.raft.under_replicated
  pub under_replicated_to : d.under_replicated_to ≡ curr.raft.under_replicated
  pub leaderless_from : d.leaderless_from ≡ prev.raft.leaderless
  pub leaderless_to : d.leaderless_to ≡ curr.raft.leaderless
  pub p99_from : d.p99_from ≡ prev.performance.p99_ysql_ms
  pub p99_to : d.p99_to ≡ curr.performance.p99_ysql_ms
  pub added :
      (k : FindingCode)
      → times k d.findings_added
        ≡ (if has k (codes curr.findings) && not (has k (codes prev.findings)) then 1 else 0)
  pub removed :
      (k : FindingCode)
      → times k d.findings_removed
        ≡ (if has k (codes prev.findings) && not (has k (codes curr.findings)) then 1 else 0)
  pub leaders :
      (k : String) (a b : ℕ)
      → any (is_change k a b) d.leaders ≡ (
          not (a == b)
          && last_leaders k prev.tablets.per_node 0 == a
          && last_leaders k curr.tablets.per_node 0 == b)

pub diff_of-IsBetween :
    {F : Type 0} (baseline : String) (prev curr : HealthReport F)
    → IsBetween prev curr (diff_of baseline prev curr)
unfolding diff_of
diff_of-IsBetween baseline prev curr =
    let exact = finding_delta_exact prev.findings curr.findings in
    record {
      score_from = refl;
      score_to = refl;
      masters_from = refl;
      masters_to = refl;
      tservers_from = refl;
      tservers_to = refl;
      under_replicated_from = refl;
      under_replicated_to = refl;
      leaderless_from = refl;
      leaderless_to = refl;
      p99_from = refl;
      p99_to = refl;
      added = exact.0;
      removed = exact.1;
      leaders = λ k a b. leader_deltas_exact k a b prev.tablets.per_node curr.tablets.per_node;
    }
