-- ===== src/Witnesses/Whole.antt =====
-- The whole report of the small universe.
use yb_doctor.Base.{true, ◌≡◌}
use yb_doctor.Float.{fraction_float}
use yb_doctor.Domain.Ids.{code_dead_tserver}
use yb_doctor.Config.{defaults}
use yb_doctor.App.Findings.Codes.{reports, due}
use yb_doctor.App.Service.{analyze_snapshot}
use yb_doctor.App.Service.Reports.{analyze_snapshot_findings}
use yb_doctor.Witnesses.Data.{town}

analyze_snapshot_findings_example :
    reports code_dead_tserver (analyze_snapshot defaults town).findings ≡ true
unfolding due
analyze_snapshot_findings_example = analyze_snapshot_findings defaults town code_dead_tserver
