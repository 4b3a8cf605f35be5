-- ===== src/Witnesses/Analysis.antt =====
-- The snapshot's analysis, on the examples of Witnesses/Data.
use yb_doctor.Base.{true, ◌≡◌, [], ◌∷◌, map}
use yb_doctor.Float.{fraction_float}
use yb_doctor.Domain.Ids.{severity_high, code_dead_tserver, code_disk_pressure}
use yb_doctor.Domain.Cluster.{voting_peers}
use yb_doctor.Config.{defaults, default_thresholds, default_flag_allowlist}
use yb_doctor.App.Raft.{analyze_raft}
use yb_doctor.App.Tablets.{analyze_tablets}
use yb_doctor.App.Tally.{tally}
use yb_doctor.App.Tally.PerNode.{counter, tally_exact}
use yb_doctor.App.Flags.{attach_flag_evidence}
use yb_doctor.App.Flags.Evidence.{with_flags, attach_flag_evidence_exact}
use yb_doctor.App.Findings.{collect_findings}
use yb_doctor.App.Findings.Codes.{reports, due, collect_findings_exact}
use yb_doctor.Witnesses.Data.{town, note}

tally_exact_example : counter (λ st. st.total) "n1" (tally town).per_node ≡ 2
unfolding voting_peers
tally_exact_example = (tally_exact town "n1").2

attach_flag_evidence_exact_example :
    attach_flag_evidence (note severity_high code_disk_pressure ∷ []) town default_flag_allowlist
    ≡ map (with_flags town default_flag_allowlist) (note severity_high code_disk_pressure ∷ [])
attach_flag_evidence_exact_example =
    attach_flag_evidence_exact (note severity_high code_disk_pressure ∷ []) town
      default_flag_allowlist

collect_findings_exact_example :
    reports code_dead_tserver (
      collect_findings town
        (analyze_tablets town default_thresholds)
        (analyze_raft town default_thresholds)
        defaults)
    ≡ true
unfolding due
collect_findings_exact_example =
    collect_findings_exact code_dead_tserver town (analyze_tablets town default_thresholds)
      (analyze_raft town default_thresholds) defaults
