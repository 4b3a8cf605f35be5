-- ===== src/Cli/Whole.antt =====
-- internal/adapter/inbound/cli/root.go with the packages below it: `analyze` on a scenario, from the flags to the
-- exit code.
use yb_doctor.Base.{
  String, Bool, not, ◌&&◌, ◌||◌, is_err, ◌>>=◌, ◌≡◌, none, [], length, ◌==◌, str_eq,
}
use yb_doctor.Float.{Float64}
use yb_doctor.Config.{Config}
use yb_doctor.Domain.Report.{HealthReport}
use yb_doctor.Fixture.Plans.{scenario_file}
use yb_doctor.Cli.World.{World}
use yb_doctor.Cli.Service.{Service, scenario_source, Step, went, stop, write_health_report}
use yb_doctor.Cli.Runs.{Run, faulted}
use yb_doctor.Cli.Commands.{run_analyze, health_error}
use yb_doctor.Cli.Endings.{fails_then, is_some}

module _ {F : Type 0} ⦃f : Float64 F⦄ (world : World F) where
  -- The service of a scenario.
  abbrev scenario_service : Config F → Service F
  scenario_service cfg = record { cfg = cfg; source = scenario_source cfg.scenario }

  -- The scenario cannot be had: the context has ended, the file cannot be read or decoded, or the plan has no servers.
  abbrev pub lacks_scenario : String → Bool
  lacks_scenario path =
      is_some world.context_error
      || fails_then (world.disk.read_file (scenario_file world.disk path))
          (λ raw. fails_then (world.disk.decode raw) (λ plan. length plan.tservers == 0))

  -- The report of `--diff` is asked for, and cannot be read or decoded.
  abbrev pub lacks_baseline : String → Bool
  lacks_baseline path =
      not (str_eq path "")
      && fails_then (world.sys.read_file path) (λ raw. is_err (world.decode_report raw))

  -- The health pages and the files of the reports can be written.
  abbrev pub IsWritten : Config F → Type 0
  IsWritten cfg =
      ((r : HealthReport F) → health_error world cfg r ≡ none)
      × ((r : HealthReport F) → write_health_report world cfg.out_file r ≡ none)

  abbrev with_built : Step (Service F) → Run
  with_built step = elim step as (λ x. Run) [
    | stop e ↦ ([], faulted e)
    | went svc ↦ run_analyze world svc
  ]
