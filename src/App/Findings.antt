-- ===== src/App/Findings.antt =====
-- internal/app/findings.go: `collectFindings`. The slice `findings` is the
-- concatenation of what each block of the code appends.
pub mod Codes
pub mod Order
use yb_doctor.Base.{
  ℕ, ◌+◌, ◌/◌, String, Bool, true, false, ◌&&◌, ◌||◌, not, Option, none, some, List, [], ◌∷◌, ◌++◌,
  map, filter, length, Dict, get, put, ltb, leb, ◌==◌, ℤ, pos, ltb_ℤ, leb_ℤ, str_eq, concat,
  sort_strings, show_ℕ, show_ℤ, if◌then◌else◌,
}
use yb_doctor.Float.{Float64, nought, whole, ge, gt}
use yb_doctor.Domain.Ids.{
  FindingCode, Severity, severity_high, severity_medium, severity_low, is_warn, code_dead_tserver,
  code_master_quorum, code_leaderless, code_under_replicated, code_leader_imbalance,
  code_tablet_imbalance, code_sst_imbalance, code_hot_tablets, code_slow_followers,
  code_compaction_pressure, code_disk_pressure, code_p99_latency, code_single_region,
}
use yb_doctor.Domain.Cluster.{Snapshot, NodeRuntime, alive, healthy_masters, regions}
use yb_doctor.Domain.Report.{
  Finding, NodeTabletStats, TabletSummary, RaftSummary, PerformanceSummary,
}
use yb_doctor.Config.{Config, Thresholds}
use yb_doctor.App.Groups.{display_name}
use yb_doctor.App.Skew.{extreme_alive_names}
use yb_doctor.App.Tablets.{leader_imbalance_evidence, tablet_imbalance_evidence}
use yb_doctor.App.Flags.{attach_flag_evidence}
use yb_doctor.App.Pressure.{finding, emit_if, nodes_findings}

-- The loop of `joinComma`, after the first part.
join_rest : List String → String
join_rest [] = ""
join_rest (p ∷ ps) = concat (", " ∷ p ∷ join_rest ps ∷ [])

unfoldable pub join_comma : List String → String
unfolding join_rest
join_comma [] = ""
join_comma (p ∷ ps) = concat (p ∷ join_rest ps ∷ [])

-- The slice after the blocks have appended to it in turn.
abbrev pub blocks : List (List Finding) → List Finding
blocks [] = []
blocks (b ∷ bs) = b ++ blocks bs

unfoldable pub stats_into : List NodeTabletStats → Dict NodeTabletStats → Dict NodeTabletStats
stats_into [] out = out
stats_into (st ∷ sts) out = stats_into sts (put st.node_id st out)

-- The blocks that read only the Raft summary and counts.
unfoldable pub leaderless_finding : RaftSummary → List Finding
leaderless_finding raft = emit_if (ltb 0 raft.leaderless) (
    finding severity_high code_leaderless "Leaderless tablets"
      "Tablets without a Raft leader cannot serve writes and may stall reads."
      (concat ("leaderless tablets: " ∷ show_ℕ raft.leaderless ∷ []) ∷ []) "")

unfoldable pub slow_finding : RaftSummary → List Finding
slow_finding raft = emit_if (ltb 0 raft.slow_followers) (
    finding severity_low code_slow_followers "Slow followers"
      "Some Raft followers are lagging the leader WAL."
      (concat ("slow followers: " ∷ show_ℕ raft.slow_followers ∷ []) ∷ []) "")

module _ {F : Type 0} where
  unfoldable pub node_stats : TabletSummary F → Dict NodeTabletStats
  node_stats sum = stats_into sum.per_node []

  unfoldable pub dead_names : Snapshot F → List String
  dead_names s = map display_name (filter (λ t. not (alive t)) s.tservers)

  unfoldable pub dead_finding : Snapshot F → List Finding
  dead_finding s = emit_if (ltb 0 (length (dead_names s))) (
      finding severity_high code_dead_tserver "Dead TServer"
        "One or more tablet servers are not heartbeating to the Master leader."
        (concat ("dead TServers: " ∷ join_comma (dead_names s) ∷ [])
          ∷ "tablets on those nodes are under-replicated until the node returns or is replaced"
          ∷ [])
        "")

  unfoldable pub master_finding : Snapshot F → List Finding
  master_finding s =
      let (mh, mt) = healthy_masters s in
      emit_if (ltb 0 mt && ltb mh (mt / 2 + 1)) (
        finding severity_high code_master_quorum "Master quorum at risk"
          "The YB-Master Raft group does not have a majority of healthy members."
          (concat ("healthy masters: " ∷ show_ℕ mh ∷ "/" ∷ show_ℕ mt ∷ []) ∷ []) "")

  unfoldable pub under_finding : Snapshot F → RaftSummary → List Finding
  under_finding s raft =
      let high = ltb 10 raft.under_replicated || ltb 0 (length (dead_names s)) in
      emit_if (ltb 0 raft.under_replicated) (
        finding (if high then severity_high else severity_medium) code_under_replicated
          "Under-replicated tablets"
          "Some tablets have fewer voting replicas than the configured replication factor."
          (concat ("under-replicated: " ∷ show_ℕ raft.under_replicated ∷ [])
            ∷ concat ("replication factor: " ∷ show_ℤ s.replication_factor ∷ [])
            ∷ [])
          "")

  unfoldable pub hot_finding : TabletSummary F → List Finding
  hot_finding sum = emit_if (ltb 0 sum.hot_tablets) (
      finding severity_medium code_hot_tablets "Hot tablets"
        "A small number of tablets absorb a disproportionate share of operations."
        (concat ("hot tablets: " ∷ show_ℕ sum.hot_tablets ∷ []) ∷ []) "")

  unfoldable pub region_finding : Snapshot F → List Finding
  region_finding s = emit_if (length (regions s) == 1 && ltb 0 (length s.tservers)) (
      finding severity_low code_single_region "Single-region deployment"
        "All TServers sit in one region; a regional outage takes the universe down."
        (concat ("regions: " ∷ join_comma (regions s) ∷ [])
          ∷ "RPO is 0 only for failures the placement can tolerate"
          ∷ [])
        "")

module _ {F : Type 0} ⦃f : Float64 F⦄ where
  unfoldable pub leader_finding : Snapshot F → TabletSummary F → List Finding
  leader_finding s sum = emit_if (is_warn sum.leader_imbalance) (
      finding severity_medium code_leader_imbalance "Leader imbalance"
        "Raft leaders are concentrated on a subset of TServers, creating CPU and WAL hotspots."
        (leader_imbalance_evidence sum s.load_balancer) sum.hottest_node)

  unfoldable pub tablet_finding : Snapshot F → TabletSummary F → List Finding
  tablet_finding s sum =
      let named = extreme_alive_names s (node_stats sum) false in
      let hot_cold = if str_eq named.0 "" then (sum.hottest_node, sum.coldest_node) else named in
      emit_if (is_warn sum.tablet_imbalance) (
        finding severity_medium code_tablet_imbalance "Tablet imbalance"
          "Tablet peers are unevenly placed across TServers."
          (tablet_imbalance_evidence hot_cold.0 hot_cold.1 sum.tablet_ratio ∷ []) hot_cold.0)

  unfoldable pub sst_finding : TabletSummary F → List Finding
  sst_finding sum =
      let msg =
        if f.is_inf sum.sst_ratio
        then concat (
            sum.sst_hottest_node ∷ " holds the SST files; " ∷ sum.sst_coldest_node ∷ " has none"
            ∷ [])
        else concat (
            sum.sst_hottest_node
            ∷ " has "
            ∷ f.fixed 1 sum.sst_ratio
            ∷ "x more SST bytes than "
            ∷ sum.sst_coldest_node
            ∷ []) in
      emit_if (is_warn sum.sst_imbalance) (
        finding severity_medium code_sst_imbalance "SST imbalance"
          "DocDB SST files are concentrated on a subset of TServers; tablet counts can hide disk heat."
          (msg ∷ []) sum.sst_hottest_node)

  unfoldable pub p99_finding : Snapshot F → Thresholds F → List Finding
  p99_finding s th =
      let p99 = s.performance.p99_ysql_ms in
      let source =
        if str_eq s.performance.p99_source ""
        then []
        else concat ("source: " ∷ s.performance.p99_source ∷ []) ∷ [] in
      emit_if (gt p99 nought && gt p99 th.p99_warn_ms) (
        finding severity_medium code_p99_latency "YSQL P99 latency above target"
          "Client-facing tail latency exceeds the configured warning threshold."
          (concat ("P99 YSQL latency: " ∷ f.fixed 0 p99 ∷ "ms" ∷ [])
            ∷ concat ("threshold: " ∷ f.fixed 0 th.p99_warn_ms ∷ "ms" ∷ [])
            ∷ source)
          "")

  -- The slice before the flags are attached.
  unfoldable pub raw_findings :
      Snapshot F → TabletSummary F → RaftSummary → Thresholds F → List Finding
  raw_findings s sum raft th = blocks (
      dead_finding s
      ∷ master_finding s
      ∷ leaderless_finding raft
      ∷ under_finding s raft
      ∷ leader_finding s sum
      ∷ tablet_finding s sum
      ∷ sst_finding sum
      ∷ hot_finding sum
      ∷ slow_finding raft
      ∷ nodes_findings th s.performance.nodes
      ∷ p99_finding s th
      ∷ region_finding s
      ∷ [])

  unfoldable pub collect_findings :
      Snapshot F → TabletSummary F → RaftSummary → Config F → List Finding
  collect_findings s sum raft cfg =
      attach_flag_evidence (raw_findings s sum raft cfg.thresholds) s cfg.flag_allowlist
