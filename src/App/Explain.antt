-- ===== src/App/Explain.antt =====
-- internal/app/explain.go: the catalog of findings, and `Explain` with the lines on the current cluster.
-- The collector is a parameter, and so is the quotation of a text by `%q`.
pub mod Articles
pub mod MoreArticles
pub mod Covered
use Prim.Native.String.{count}
use yb_doctor.Base.{
  ℕ, zero, suc, ◌-◌, ◌+◌, String, Bool, true, false, ◌&&◌, Option, none, some, List, [], ◌∷◌, map,
  foldl, length, ltb, Dict, get, keys, str_eq, concat, sort_strings, show_ℕ, trim_space, to_lower,
  if◌then◌else◌, Result, ok, err,
}
use yb_doctor.Float.{Float64, nought, whole, gt}
use yb_doctor.Domain.Ids.{
  FindingCode, is_warn, code_leader_imbalance, code_tablet_imbalance, code_under_replicated,
  code_leaderless, code_slow_followers, code_compaction_pressure, code_sst_imbalance,
  code_hot_tablets, code_dead_tserver, code_master_quorum, code_disk_pressure, code_single_region,
  code_p99_latency,
}
use yb_doctor.Domain.Cluster.{Snapshot}
use yb_doctor.Domain.Report.{Explanation, Finding, HealthReport, NodeTabletStats, TabletSummary}
use yb_doctor.Config.{Config}
use yb_doctor.App.Findings.{join_comma}
use yb_doctor.App.Service.{analyze_snapshot}
use yb_doctor.App.Explain.Articles.{
  leader_imbalance_article, tablet_imbalance_article, under_replicated_article, leaderless_article,
  slow_followers_article, compaction_pressure_article, sst_imbalance_article,
}
use yb_doctor.App.Explain.MoreArticles.{
  hot_tablets_article, dead_tserver_article, master_quorum_article, disk_pressure_article,
  single_region_article, p99_latency_article,
}

unfoldable pub catalog : Dict Explanation
catalog =
    (code_leader_imbalance, leader_imbalance_article)
    ∷ (code_tablet_imbalance, tablet_imbalance_article)
    ∷ (code_under_replicated, under_replicated_article)
    ∷ (code_leaderless, leaderless_article)
    ∷ (code_slow_followers, slow_followers_article)
    ∷ (code_compaction_pressure, compaction_pressure_article)
    ∷ (code_sst_imbalance, sst_imbalance_article)
    ∷ (code_hot_tablets, hot_tablets_article)
    ∷ (code_dead_tserver, dead_tserver_article)
    ∷ (code_master_quorum, master_quorum_article)
    ∷ (code_disk_pressure, disk_pressure_article)
    ∷ (code_single_region, single_region_article)
    ∷ (code_p99_latency, p99_latency_article)
    ∷ []

-- `KnownFindingCodes`
unfoldable pub known_finding_codes : List String
unfolding catalog
known_finding_codes = sort_strings (keys catalog)

-- `%-8s` and `%6d`: blanks up to the width, after the text and before it.
unfoldable pub pad_after : ℕ → String → String
pad_after zero s = s
pad_after (suc n) String.[] = concat (" " ∷ pad_after n "" ∷ [])
pad_after (suc n) (String.◌∷◌ c s) = String.◌∷◌ c (pad_after n s)

unfoldable pub pad_before : ℕ → String → String
pad_before n s = concat (pad_after (n - count s) "" ∷ s ∷ [])

-- The first finding with the code has the evidence.
unfoldable pub evidence_of : FindingCode → List Finding → List String
evidence_of code [] = []
evidence_of code (x ∷ xs) = if str_eq x.code code then x.evidence else evidence_of code xs

module _ {F : Type 0} ⦃f : Float64 F⦄ where
  unfoldable pub leader_line : TabletSummary F → NodeTabletStats → String
  leader_line sum n =
      let mark =
        if str_eq n.name sum.hottest_node && is_warn sum.leader_imbalance
        then concat ("  ← " ∷ f.fixed 1 sum.leader_ratio ∷ "x vs " ∷ sum.coldest_node ∷ [])
        else "" in
      concat (pad_after 8 n.name ∷ " " ∷ pad_before 6 (show_ℕ n.leaders) ∷ " leaders" ∷ mark ∷ [])

  unfoldable pub average_total : List NodeTabletStats → F
  average_total rows =
      if ltb 0 (length rows)
      then f.div (whole (foldl (λ sum row. sum + row.total) 0 rows)) (whole (length rows))
      else nought

  unfoldable pub tablet_line : F → NodeTabletStats → String
  tablet_line average n =
      let mark =
        if gt average nought && gt (whole n.total) (f.mul average (f.div (whole 12) (whole 10)))
        then concat (
            "  ← "
            ∷ f.fixed 0 (f.mul (f.sub (f.div (whole n.total) average) (whole 1)) (whole 100))
            ∷ "% above average"
            ∷ [])
        else "" in
      concat (pad_after 8 n.name ∷ " " ∷ pad_before 6 (show_ℕ n.total) ∷ mark ∷ [])

  unfoldable pub current_cluster_lines : FindingCode → HealthReport F → List String
  current_cluster_lines code report =
      if str_eq code code_leader_imbalance
      then map (leader_line report.tablets) report.tablets.per_node
      else if str_eq code code_tablet_imbalance
      then map (tablet_line (average_total report.tablets.per_node)) report.tablets.per_node
      else if str_eq code code_under_replicated
      then concat ("under-replicated tablets: " ∷ show_ℕ report.raft.under_replicated ∷ []) ∷ []
      else if str_eq code code_sst_imbalance
      then concat (
          report.tablets.sst_hottest_node
          ∷ " vs "
          ∷ report.tablets.sst_coldest_node
          ∷ " SST ratio "
          ∷ f.fixed 1 report.tablets.sst_ratio
          ∷ "x"
          ∷ [])
        ∷ []
      else if str_eq code code_leaderless
      then concat ("leaderless tablets: " ∷ show_ℕ report.raft.leaderless ∷ []) ∷ []
      else if str_eq code code_compaction_pressure
      then (if ltb 0 (length report.performance.compaction_nodes)
          then concat ("compaction HIGH on " ∷ join_comma report.performance.compaction_nodes ∷ [])
            ∷ []
          else "no compaction backlog above threshold" ∷ [])
      else if str_eq code code_single_region
      then concat ("regions: " ∷ join_comma report.topology.regions ∷ []) ∷ []
      else evidence_of code report.findings

  unfoldable pub cluster_now : Config F → Result (Snapshot F) → FindingCode → List String
  cluster_now cfg (err e) code = "no cluster snapshot available" ∷ []
  cluster_now cfg (ok s) code =
      let lines = current_cluster_lines code (analyze_snapshot cfg s) in
      if ltb 0 (length lines) then lines else "no matching evidence in the current cluster" ∷ []

  unfoldable pub explain :
      (String → String) → Config F → Result (Snapshot F) → String → Result Explanation
  explain quote cfg collected code =
      let normalized = to_lower (trim_space code) in
      elim (get normalized catalog) [
        | none ↦
            err (
              concat
                ("app: unknown finding " ∷ quote code ∷ " (try yb-doctor explain --list)" ∷ []))
        | some article ↦
            ok (record article { current_cluster = cluster_now cfg collected normalized })
      ]
