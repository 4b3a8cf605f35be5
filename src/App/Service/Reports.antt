-- ===== src/App/Service/Reports.antt =====
-- internal/app/service.go: what holds of the report that `analyzeSnapshot` puts together.
use yb_doctor.Base.{
  String, ◌≡◌, ◌∙◌, List, any, has-count, count-perm, Perm, pos, ◌≤ℤ◌, str_eq, arith,
}
use mathlib.Core.List.Perm
use yb_doctor.Float.{Float64}
use yb_doctor.Domain.Ids.{FindingCode}
use yb_doctor.Domain.Cluster.{Snapshot}
use yb_doctor.Domain.Report.{Finding, RaftSummary}
use yb_doctor.Config.{Config}
use yb_doctor.App.Raft.{analyze_raft}
use yb_doctor.App.Tablets.{analyze_tablets}
use yb_doctor.App.Findings.{collect_findings}
use yb_doctor.App.Findings.Codes.{codes, reports, is_due, due, collect_findings_exact}
use yb_doctor.App.Findings.Order.{sort_findings_lem}
use yb_doctor.App.Score.Loop.{IsSane, IsSmall}
use yb_doctor.App.Score.Closed.{codes_of}
use yb_doctor.App.Score.Laws.{IsWorse, score_report_mono}
use yb_doctor.App.Service.{sort_findings, analyze_snapshot}

reports-perm : (c : FindingCode) (xs ys : List Finding) → Perm xs ys → reports c xs ≡ reports c ys
reports-perm c xs ys p = cc (
  has-count c (codes xs),
  has-count c (codes ys),
  count-perm (λ (j : String). str_eq j c) (Perm.map (λ (f : Finding). f.code) p),
)

-- The report lists a code exactly if the code is due.
pub analyze_snapshot_findings :
    {F : Type 0} ⦃f : Float64 F⦄ (cfg : Config F) (s : Snapshot F) (c : FindingCode)
    → reports c (analyze_snapshot cfg s).findings
      ≡ any
          (is_due c)
          (due s (analyze_tablets s cfg.thresholds) (analyze_raft s cfg.thresholds) cfg.thresholds)
unfolding analyze_snapshot
analyze_snapshot_findings cfg s c =
    let sum = analyze_tablets s cfg.thresholds in
    let raft = analyze_raft s cfg.thresholds in
    let found = collect_findings s sum raft cfg in
    reports-perm c (sort_findings found) found (sort_findings_lem found).0
    ∙ collect_findings_exact c s sum raft cfg

IsWorse-refl : (raft : RaftSummary) (cs : List FindingCode) → IsWorse raft raft cs cs
IsWorse-refl raft cs = record {
  leaderless = omega arith;
  under_replicated = omega arith;
  slow_followers = omega arith;
  found = λ c h. h;
  compactions = omega arith;
  disks = omega arith;
}

-- The report's score lies between 0 and the start, if the weights are not negative and below 2³¹, and
-- the Raft counts below 2³¹.
pub analyze_snapshot_score :
    {F : Type 0} ⦃f : Float64 F⦄ (cfg : Config F) (s : Snapshot F)
    → IsSmall (analyze_raft s cfg.thresholds)
    → IsSane cfg.scoring
    → (pos 0 ≤ℤ (analyze_snapshot cfg s).score)
      × ((analyze_snapshot cfg s).score ≤ℤ cfg.scoring.start)
unfolding analyze_snapshot
analyze_snapshot_score cfg s small sane =
    let raft = analyze_raft s cfg.thresholds in
    let found = sort_findings (collect_findings s (analyze_tablets s cfg.thresholds) raft cfg) in
    let b =
      score_report_mono found found raft raft cfg.scoring small small sane
        (IsWorse-refl raft (codes_of found)) in
    (b.0, b.2)
