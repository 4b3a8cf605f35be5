-- ===== src/App/Findings/Codes.antt =====
-- Which findings a report has.
pub mod Listed
pub use Listed.{codes, reports, is_due}
use Listed.{
  reports-append, reports-blocks, reports-emit_if, leaderless_block, slow_block, ReportsBy,
  no_block, one_code, two_codes, any-ReportsBy, merge_tests,
}
use yb_doctor.Base.{
  ◌+◌, ◌/◌, String, Bool, true, false, ◌≡◌, refl, ◌∙◌, ap, ◌&&◌, ◌||◌, not, List, [], ◌∷◌, ◌++◌,
  map, filter, length, any, any-count, Bool-cases, length-map, length-filter, Dict, has, ltb, ◌==◌,
  str_eq, arith, inl, inr,
}
use yb_doctor.Float.{Float64, nought, gt, ge}
use yb_doctor.Domain.Ids.{
  FindingCode, is_warn, code_dead_tserver, code_master_quorum, code_leaderless,
  code_under_replicated, code_leader_imbalance, code_tablet_imbalance, code_sst_imbalance,
  code_hot_tablets, code_slow_followers, code_compaction_pressure, code_disk_pressure,
  code_p99_latency, code_single_region,
}
use yb_doctor.Domain.Cluster.{Snapshot, NodeRuntime, alive, healthy_masters, regions}
use yb_doctor.Domain.Report.{Finding, TabletSummary, RaftSummary}
use yb_doctor.Config.{FlagSpec, Config, Thresholds}
use yb_doctor.App.Groups.{display_name}
use yb_doctor.App.Pressure.{emit_if, compaction_backlog, node_finding, nodes_findings}
use yb_doctor.App.Flags.{attach_one, attach_flag_evidence}
use yb_doctor.App.Findings.{
  dead_names, dead_finding, master_finding, leaderless_finding, under_finding, leader_finding,
  tablet_finding, sst_finding, hot_finding, slow_finding, p99_finding, region_finding, raw_findings,
  collect_findings, blocks,
}

module _ {F : Type 0} ⦃f : Float64 F⦄ where
  attach_one-code :
      (s : Snapshot F) (allow : List FlagSpec) (x : Finding) → (attach_one s allow x).code ≡ x.code
  unfolding attach_one
  attach_one-code s allow x = ground arith

  -- Some node has a backlog; some node has none, and a full disk.
  abbrev pub backlogged : Thresholds F → Dict (NodeRuntime F) → Bool
  backlogged th nodes = any (λ e. compaction_backlog e.1 th) nodes

  abbrev pub disk_full : Thresholds F → Dict (NodeRuntime F) → Bool
  disk_full th nodes =
      any (λ e. not (compaction_backlog e.1 th) && ge e.1.disk_percent th.disk_high_percent) nodes

  reports-node_finding :
      (c : FindingCode) (th : Thresholds F) (n : String × NodeRuntime F)
      → reports c (node_finding th n.0 n.1) ≡ (
          compaction_backlog n.1 th && str_eq code_compaction_pressure c
          || (not (compaction_backlog n.1 th) && ge n.1.disk_percent th.disk_high_percent)
            && str_eq code_disk_pressure c)
  unfolding node_finding
  reports-node_finding c th n = elim (Bool-cases (compaction_backlog n.1 th)) [
    | inl e ↦ rw e refl
    | inr e ↦ rw e (reports-emit_if c _ _)
  ]

  reports-nodes_findings :
      (c : FindingCode) (th : Thresholds F) (nodes : Dict (NodeRuntime F))
      → reports c (nodes_findings th nodes) ≡ (
          backlogged th nodes && str_eq code_compaction_pressure c
          || disk_full th nodes && str_eq code_disk_pressure c)
  unfolding nodes_findings
  reports-nodes_findings c th [] = refl
  reports-nodes_findings c th (n ∷ nodes) =
      reports-append c (node_finding th n.0 n.1) (nodes_findings th nodes)
      ∙ cc (
        reports-node_finding c th n,
        reports-nodes_findings c th nodes,
        merge_tests (str_eq code_compaction_pressure c) (str_eq code_disk_pressure c)
            (compaction_backlog n.1 th)
            (not (compaction_backlog n.1 th) && ge n.1.disk_percent th.disk_high_percent)
            (backlogged th nodes) (disk_full th nodes),
      )

  codes-attach_all :
      (s : Snapshot F) (allow : List FlagSpec) (fs : List Finding)
      → codes (map (attach_one s allow) fs) ≡ codes fs
  codes-attach_all s allow [] = refl
  codes-attach_all s allow (x ∷ fs) = cc (attach_one-code s allow x, codes-attach_all s allow fs)

  codes-attach :
      (fs : List Finding) (s : Snapshot F) (allow : List FlagSpec)
      → codes (attach_flag_evidence fs s allow) ≡ codes fs
  unfolding attach_flag_evidence
  codes-attach fs s allow = elim (Bool-cases (length allow == 0)) [
    | inl e ↦ rw e refl
    | inr e ↦ rw e (codes-attach_all s allow fs)
  ]

  dead_lem : (s : Snapshot F) → ltb 0 (length (dead_names s)) ≡ any (λ t. not (alive t)) s.tservers
  unfolding dead_names
  dead_lem s = cc (
    length-map display_name (filter (λ t. not (alive t)) s.tservers),
    length-filter (λ t. not (alive t)) s.tservers,
    any-count (λ t. not (alive t)) s.tservers,
  )

  -- The masters have no majority of healthy members.
  abbrev pub masters_at_risk : Snapshot F → Bool
  masters_at_risk s = let (mh, mt) = healthy_masters s in ltb 0 mt && ltb mh (mt / 2 + 1)

  abbrev pub p99_high : Snapshot F → Thresholds F → Bool
  p99_high s th = gt s.performance.p99_ysql_ms nought && gt s.performance.p99_ysql_ms th.p99_warn_ms

  abbrev pub one_region : Snapshot F → Bool
  one_region s = length (regions s) == 1 && ltb 0 (length s.tservers)

  dead_block :
      (c : FindingCode) (s : Snapshot F)
      → reports c (dead_finding s)
        ≡ (any (λ t. not (alive t)) s.tservers && str_eq code_dead_tserver c)
  unfolding dead_finding
  dead_block c s = reports-emit_if c _ _ ∙ ap (λ b. b && str_eq code_dead_tserver c) (dead_lem s)

  master_block :
      (c : FindingCode) (s : Snapshot F)
      → reports c (master_finding s) ≡ (masters_at_risk s && str_eq code_master_quorum c)
  unfolding master_finding
  master_block c s = reports-emit_if c _ _

  under_block :
      (c : FindingCode) (s : Snapshot F) (raft : RaftSummary)
      → reports c (under_finding s raft)
        ≡ (ltb 0 raft.under_replicated && str_eq code_under_replicated c)
  unfolding under_finding
  under_block c s raft = reports-emit_if c _ _

  leader_block :
      (c : FindingCode) (s : Snapshot F) (sum : TabletSummary F)
      → reports c (leader_finding s sum)
        ≡ (is_warn sum.leader_imbalance && str_eq code_leader_imbalance c)
  unfolding leader_finding
  leader_block c s sum = reports-emit_if c _ _

  tablet_block :
      (c : FindingCode) (s : Snapshot F) (sum : TabletSummary F)
      → reports c (tablet_finding s sum)
        ≡ (is_warn sum.tablet_imbalance && str_eq code_tablet_imbalance c)
  unfolding tablet_finding
  tablet_block c s sum = reports-emit_if c _ _

  sst_block :
      (c : FindingCode) (sum : TabletSummary F)
      → reports c (sst_finding sum) ≡ (is_warn sum.sst_imbalance && str_eq code_sst_imbalance c)
  unfolding sst_finding
  sst_block c sum = reports-emit_if c _ _

  hot_block :
      (c : FindingCode) (sum : TabletSummary F)
      → reports c (hot_finding sum) ≡ (ltb 0 sum.hot_tablets && str_eq code_hot_tablets c)
  unfolding hot_finding
  hot_block c sum = reports-emit_if c _ _

  p99_block :
      (c : FindingCode) (s : Snapshot F) (th : Thresholds F)
      → reports c (p99_finding s th) ≡ (p99_high s th && str_eq code_p99_latency c)
  unfolding p99_finding
  p99_block c s th = reports-emit_if c _ _

  region_block :
      (c : FindingCode) (s : Snapshot F)
      → reports c (region_finding s) ≡ (one_region s && str_eq code_single_region c)
  unfolding region_finding
  region_block c s = reports-emit_if c _ _

  -- Every code of a finding, and when it is due.
  unfoldable pub due :
      Snapshot F → TabletSummary F → RaftSummary → Thresholds F → List (FindingCode × Bool)
  due s sum raft th =
      (code_dead_tserver, any (λ t. not (alive t)) s.tservers)
      ∷ (code_master_quorum, masters_at_risk s)
      ∷ (code_leaderless, ltb 0 raft.leaderless)
      ∷ (code_under_replicated, ltb 0 raft.under_replicated)
      ∷ (code_leader_imbalance, is_warn sum.leader_imbalance)
      ∷ (code_tablet_imbalance, is_warn sum.tablet_imbalance)
      ∷ (code_sst_imbalance, is_warn sum.sst_imbalance)
      ∷ (code_hot_tablets, ltb 0 sum.hot_tablets)
      ∷ (code_slow_followers, ltb 0 raft.slow_followers)
      ∷ (code_compaction_pressure, backlogged th s.performance.nodes)
      ∷ (code_disk_pressure, disk_full th s.performance.nodes)
      ∷ (code_p99_latency, p99_high s th)
      ∷ (code_single_region, one_region s)
      ∷ []

  unfoldable raw_blocks :
      Snapshot F → TabletSummary F → RaftSummary → Thresholds F → List (List Finding)
  raw_blocks s sum raft th =
      dead_finding s
      ∷ master_finding s
      ∷ leaderless_finding raft
      ∷ under_finding s raft
      ∷ leader_finding s sum
      ∷ tablet_finding s sum
      ∷ sst_finding sum
      ∷ hot_finding sum
      ∷ slow_finding raft
      ∷ nodes_findings th s.performance.nodes
      ∷ p99_finding s th
      ∷ region_finding s
      ∷ []

  raw_blocks-ReportsBy :
      (c : FindingCode) (s : Snapshot F) (sum : TabletSummary F) (raft : RaftSummary)
      (th : Thresholds F)
      → ReportsBy c (raw_blocks s sum raft th) (due s sum raft th)
  unfolding due raw_blocks
  raw_blocks-ReportsBy c s sum raft th =
      (one_code (dead_block c s) (
        one_code (master_block c s) (
          one_code (leaderless_block c raft) (
            one_code (under_block c s raft) (
              one_code (leader_block c s sum) (
                one_code (tablet_block c s sum) (
                  one_code (sst_block c sum) (
                    one_code (hot_block c sum) (
                      one_code (slow_block c raft) (
                        two_codes (reports-nodes_findings c th s.performance.nodes) (
                          one_code (p99_block c s th)
                            (one_code (region_block c s) no_block))))))))))))

  reports-raw :
      (c : FindingCode) (s : Snapshot F) (sum : TabletSummary F) (raft : RaftSummary)
      (th : Thresholds F)
      → reports c (raw_findings s sum raft th) ≡ any (is_due c) (due s sum raft th)
  unfolding raw_findings raw_blocks
  reports-raw c s sum raft th =
      reports-blocks c (raw_blocks s sum raft th)
      ∙ any-ReportsBy (raw_blocks-ReportsBy c s sum raft th)

  -- A code is among the collected findings exactly when its test holds: a dead TServer, masters without
  -- a majority, and so on for the thirteen codes.
  pub collect_findings_exact :
      (c : FindingCode) (s : Snapshot F) (sum : TabletSummary F) (raft : RaftSummary)
      (cfg : Config F)
      → reports c (collect_findings s sum raft cfg) ≡ any (is_due c) (due s sum raft cfg.thresholds)
  unfolding collect_findings
  collect_findings_exact c s sum raft cfg =
      ap (has c) (codes-attach (raw_findings s sum raft cfg.thresholds) s cfg.flag_allowlist)
      ∙ reports-raw c s sum raft cfg.thresholds
