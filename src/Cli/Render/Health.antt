-- ===== src/Cli/Render/Health.antt =====
-- internal/adapter/inbound/cli/render/text.go: `Health` and `Changes`.
use yb_doctor.Base.{
  String, ◌&&◌, not, none, some, [], ◌∷◌, length, ltb, str_eq, concat, show_ℕ, show_ℤ,
  if◌then◌else◌,
}
use yb_doctor.Float.{Float64}
use yb_doctor.Domain.Ids.{is_warn}
use yb_doctor.Domain.Report.{Finding, HealthReport, NodeTabletStats}
use yb_doctor.App.Explain.{pad_after, pad_before}
use yb_doctor.Cli.Render.Numbers.{join, commas, bytes_short, debt_pct, p99_line}
use yb_doctor.Cli.Render.Pieces.{
  Palette, heading, health_status, severity_color, severity_text, score_color, load_balancer_line,
  line, each, when, diff_text,
}

-- `"%-18s %8s %11s %8s %8s %8s %6s\n"`
unfoldable pub node_line : String → String → String → String → String → String → String → String
node_line name leaders followers total sst pending debt = line (
    pad_after 18 name
    ∷ " "
    ∷ pad_before 8 leaders
    ∷ " "
    ∷ pad_before 11 followers
    ∷ " "
    ∷ pad_before 8 total
    ∷ " "
    ∷ pad_before 8 sst
    ∷ " "
    ∷ pad_before 8 pending
    ∷ " "
    ∷ pad_before 6 debt
    ∷ [])

unfoldable pub evidence_line : String → String
evidence_line ev = line ("       → " ∷ ev ∷ [])

unfoldable pub finding_lines : Palette → Finding → String
unfolding evidence_line
finding_lines c x = concat (
    line (
      "\n"
      ∷ severity_color c x.severity
      ∷ "["
      ∷ severity_text x.severity
      ∷ "]"
      ∷ c.reset
      ∷ " "
      ∷ x.title
      ∷ [])
    ∷ each evidence_line x.evidence
    ∷ [])

-- A warning, and what it says of two nodes: one sentence if the ratio is infinite, and one with the ratio.
unfoldable pub skew_warning : Palette → String → String → String → String
skew_warning c what said other = concat (
    line ("\n" ∷ c.yellow ∷ "WARNING: " ∷ what ∷ " imbalance detected" ∷ c.reset ∷ [])
    ∷ line ("  " ∷ said ∷ other ∷ "." ∷ [])
    ∷ [])

module _ (F : Type 0) ⦃f : Float64 F⦄ where
  unfoldable pub node_row : NodeTabletStats → String
  node_row n =
      node_line n.name (commas n.leaders) (commas n.followers) (commas n.total)
        (bytes_short F n.sst_bytes) (bytes_short F n.pending_compaction_bytes)
        (debt_pct F n.pending_compaction_bytes n.sst_bytes)

module _ {F : Type 0} ⦃f : Float64 F⦄ where
  unfoldable pub topology_text : Palette → HealthReport F → String
  topology_text c r = concat (
      heading c "YugabyteDB Cluster Health"
      ∷ line ("Nodes                    " ∷ show_ℕ r.topology.nodes ∷ [])
      ∷ line (
          "Masters                  "
          ∷ show_ℕ r.topology.masters_healthy
          ∷ "/"
          ∷ show_ℕ r.topology.masters_total
          ∷ " healthy"
          ∷ [])
      ∷ line (
          "TServers                 "
          ∷ show_ℕ r.topology.tservers_healthy
          ∷ "/"
          ∷ show_ℕ r.topology.tservers_total
          ∷ " healthy"
          ∷ [])
      ∷ line ("Replication Factor       " ∷ show_ℤ r.topology.replication_factor ∷ [])
      ∷ when (ltb 0 (length r.topology.regions))
          (line ("Regions                  " ∷ join ", " r.topology.regions ∷ []))
      ∷ when (not (str_eq (load_balancer_line r.snapshot.load_balancer) ""))
          (line ("Load balancer            " ∷ load_balancer_line r.snapshot.load_balancer ∷ []))
      ∷ [])

  unfoldable pub tablet_text : Palette → HealthReport F → String
  tablet_text c r = concat (
      heading c "Tablet Health"
      ∷ line ("Tablets                  " ∷ commas r.tablets.total ∷ [])
      ∷ line ("Under-replicated         " ∷ show_ℕ r.tablets.under_replicated ∷ [])
      ∷ line ("Leader imbalance         " ∷ health_status c r.tablets.leader_imbalance ∷ [])
      ∷ line ("Tablet imbalance         " ∷ health_status c r.tablets.tablet_imbalance ∷ [])
      ∷ heading c "Node Distribution"
      ∷ node_line "" "Leaders" "Followers" "Total" "SST" "Pending" "Debt"
      ∷ each (node_row F) r.tablets.per_node
      ∷ when (is_warn r.tablets.leader_imbalance && not (str_eq r.tablets.hottest_node "")) (
          if f.is_inf r.tablets.leader_ratio
          then skew_warning c "Leader"
              (concat (r.tablets.hottest_node ∷ " holds every Raft leader; " ∷ []))
              (concat (r.tablets.coldest_node ∷ " has none" ∷ []))
          else skew_warning c "Leader"
              (concat (
                r.tablets.hottest_node
                ∷ " has "
                ∷ f.fixed 1 r.tablets.leader_ratio
                ∷ "x more leaders than "
                ∷ []))
              r.tablets.coldest_node)
      ∷ when (is_warn r.tablets.sst_imbalance && not (str_eq r.tablets.sst_hottest_node "")) (
          if f.is_inf r.tablets.sst_ratio
          then skew_warning c "SST"
              (concat (r.tablets.sst_hottest_node ∷ " holds the SST files; " ∷ []))
              (concat (r.tablets.sst_coldest_node ∷ " has none" ∷ []))
          else skew_warning c "SST"
              (concat (
                r.tablets.sst_hottest_node
                ∷ " has "
                ∷ f.fixed 1 r.tablets.sst_ratio
                ∷ "x more SST bytes than "
                ∷ []))
              r.tablets.sst_coldest_node)
      ∷ [])

  unfoldable pub raft_text : Palette → HealthReport F → String
  raft_text c r = concat (
      heading c "Raft"
      ∷ line ("Leaderless tablets       " ∷ show_ℕ r.raft.leaderless ∷ [])
      ∷ line ("Under-replicated         " ∷ show_ℕ r.raft.under_replicated ∷ [])
      ∷ line ("Slow followers           " ∷ show_ℕ r.raft.slow_followers ∷ [])
      ∷ heading c "Performance"
      ∷ line ("P99 YSQL latency         " ∷ p99_line r.performance ∷ [])
      ∷ line ("Slow queries             " ∷ show_ℤ r.performance.slow_queries ∷ [])
      ∷ line ("Hot tablets              " ∷ show_ℕ r.performance.hot_tablets ∷ [])
      ∷ line ("Compaction pressure      " ∷ r.performance.compaction_pressure ∷ [])
      ∷ [])

  unfoldable pub diagnosis_text : Palette → HealthReport F → String
  diagnosis_text c r = concat (
      heading c "Diagnosis"
      ∷ when (not (ltb 0 (length r.findings)))
          (line ("\n" ∷ c.green ∷ "No issues detected." ∷ c.reset ∷ []))
      ∷ each (finding_lines c) r.findings
      ∷ line ("\nOverall score: " ∷ score_color c r.score ∷ show_ℤ r.score ∷ "/100" ∷ c.reset ∷ [])
      ∷ elim r.diff [ none ↦ "" | some d ↦ diff_text c d ]
      ∷ [])

  -- The text of `Health`.
  unfoldable pub health_text : Palette → HealthReport F → String
  unfolding topology_text tablet_text raft_text diagnosis_text
  health_text c r =
      concat (topology_text c r ∷ tablet_text c r ∷ raft_text c r ∷ diagnosis_text c r ∷ [])
