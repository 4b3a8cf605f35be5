-- ===== src/App/Pressure.antt =====
-- internal/app/findings.go: the nodes under pressure, in `analyzePerformance` and in the loop of
-- `collectFindings`. Both visit the map of nodes in the order of the association list, which stands
-- for any order.
use yb_doctor.Base.{
  String, Bool, true, false, List, [], ◌∷◌, ◌++◌, Dict, pos, ltb_ℤ, leb_ℤ, concat, sort_strings,
  if◌then◌else◌,
}
use yb_doctor.Float.{Float64, nought, whole, ge, gt}
use yb_doctor.Domain.Ids.{
  FindingCode, Severity, severity_high, code_compaction_pressure, code_disk_pressure,
}
use yb_doctor.Domain.Cluster.{Snapshot, NodeRuntime}
use yb_doctor.Domain.Report.{Finding, PerformanceSummary}
use yb_doctor.Config.{Thresholds}
use yb_doctor.App.Flags.{format_bytes_iec}

abbrev pub finding : Severity → FindingCode → String → String → List String → String → Finding
finding severity code title summary evidence node = record {
  severity = severity;
  code = code;
  title = title;
  summary = summary;
  evidence = evidence;
  node = node;
}

abbrev pub emit_if : Bool → Finding → List Finding
emit_if test x = if test then x ∷ [] else []

unfoldable pub pressure_text : List String → String
pressure_text [] = "OK"
pressure_text (n ∷ []) = concat ("HIGH on " ∷ n ∷ [])
pressure_text _ = "HIGH"

module _ {F : Type 0} ⦃f : Float64 F⦄ where
  unfoldable pub compaction_backlog : NodeRuntime F → Thresholds F → Bool
  compaction_backlog rt th =
      if ltb_ℤ rt.pending_compaction_bytes th.compaction_high_bytes
      then false
      else if leb_ℤ rt.sst_file_bytes (pos 0)
      then true
      else ge (f.div (f.of_ℤ rt.pending_compaction_bytes) (f.of_ℤ rt.sst_file_bytes))
          th.compaction_sst_ratio

  unfoldable pub compaction_evidence : NodeRuntime F → List String
  compaction_evidence rt =
      let percent =
        f.mul (f.div (f.of_ℤ rt.pending_compaction_bytes) (f.of_ℤ rt.sst_file_bytes)) (whole 100) in
      let files =
        if ltb_ℤ (pos 0) rt.sst_file_bytes
        then concat ("SST files: " ∷ format_bytes_iec f rt.sst_file_bytes ∷ [])
          ∷ concat ("pending/SST: " ∷ f.fixed 0 percent ∷ "%" ∷ [])
          ∷ []
        else "SST files: n/a (empty node; backlog still counts)" ∷ [] in
      let disk =
        if gt rt.disk_percent nought
        then concat ("disk utilization: " ∷ f.fixed 0 rt.disk_percent ∷ "%" ∷ []) ∷ []
        else [] in
      let write =
        if gt rt.write_latency_delta_pct nought
        then concat ("write latency correlated +" ∷ f.fixed 0 rt.write_latency_delta_pct ∷ "%" ∷ [])
          ∷ []
        else [] in
      (concat ("pending compaction: " ∷ format_bytes_iec f rt.pending_compaction_bytes ∷ []) ∷ [])
      ++ (files ++ (disk ++ write))

  -- One round of the loop over the nodes: at most one finding.
  unfoldable pub node_finding : Thresholds F → String → NodeRuntime F → List Finding
  node_finding th name rt =
      if compaction_backlog rt th
      then finding severity_high code_compaction_pressure
          (concat ("Compaction pressure on " ∷ name ∷ []))
          "DocDB (RocksDB) has a large compaction backlog; write amplification and latency will rise."
          (compaction_evidence rt) name
        ∷ []
      else emit_if (ge rt.disk_percent th.disk_high_percent) (
          finding severity_high code_disk_pressure (concat ("Disk pressure on " ∷ name ∷ []))
            "Disk utilization is high enough to threaten compaction, WAL growth, and node stability."
            (concat ("disk utilization: " ∷ f.fixed 0 rt.disk_percent ∷ "%" ∷ []) ∷ []) name)

  unfoldable pub nodes_findings : Thresholds F → Dict (NodeRuntime F) → List Finding
  nodes_findings th [] = []
  nodes_findings th ((name, rt) ∷ nodes) = node_finding th name rt ++ nodes_findings th nodes

  unfoldable pub backlog_names : Thresholds F → Dict (NodeRuntime F) → List String
  backlog_names th [] = []
  backlog_names th ((name, rt) ∷ nodes) =
      let rest = backlog_names th nodes in if compaction_backlog rt th then name ∷ rest else rest

  unfoldable pub analyze_performance : Snapshot F → Thresholds F → PerformanceSummary F
  analyze_performance s th =
      let nodes = sort_strings (backlog_names th s.performance.nodes) in
      record {
        p99_ysql_ms = s.performance.p99_ysql_ms;
        p99_source = s.performance.p99_source;
        slow_queries = s.performance.slow_queries;
        hot_tablets = 0;
        compaction_pressure = pressure_text nodes;
        compaction_nodes = nodes;
      }
