-- ===== src/Witnesses/Commands.antt =====
-- Commands on a process that has one scenario.
use yb_doctor.Base.{
  true, false, ◌≡◌, refl, none, some, [], ◌∷◌, map, pos, ok, err, trim_space, to_lower,
}
use yb_doctor.Float.{Fraction, fraction_float}
use yb_doctor.Domain.Cluster.{Snapshot}
use yb_doctor.Config.{Config, defaults}
use yb_doctor.Config.Validate.{validate, faults}
use yb_doctor.App.Diff.{diff_reports}
use yb_doctor.App.Service.{analyze_snapshot}
use yb_doctor.App.Watch.{deadline_exceeded}
use yb_doctor.Fixture.Plans.{collect_scenario, expand, expanded}
use yb_doctor.Cli.Render.Pieces.{page, write_page}
use yb_doctor.Cli.World.{World, beat, ended}
use yb_doctor.Cli.Service.{Service, scenario_source, collected, load_health_report}
use yb_doctor.Cli.Runs.{before, sample_texts, render_opts}
use yb_doctor.Cli.Commands.{
  explain_command, poc_command, execute, run_command, run_analyze, health_page, health_error,
  run_changes,
}
use yb_doctor.Cli.Exit.{is_two, reads_no_report, execute_usage, run_command_has_report}
use yb_doctor.Cli.Compared.{Compared, run_analyze-Compared}
use yb_doctor.Cli.Printed.{run_analyze_watch}
use yb_doctor.Witnesses.Data.{town}
use yb_doctor.Witnesses.Scenario.{plan}
use yb_doctor.Witnesses.Sources.{sys, flags}
use yb_doctor.Witnesses.Cluster.{json, http, schedule}

abbrev world : World Fraction
world = record {
  sys = sys;
  version = "1";
  disk = record {
    is_dir = λ _. true;
    join = λ dir name. name;
    read_file = λ _. ok "raw";
    decode = λ _. ok plan;
  };
  context_error = none;
  now = pos 7;
  append_certs = λ _. true;
  json = json;
  http = http;
  driver = λ _ _. err "down";
  schedule = schedule;
  beats = beat (ok town) ∷ ended deadline_exceeded ∷ [];
  quote = λ s. s;
  encoder = record {
    health = λ _. ok "{}";
    indented = λ _. ok "{}";
    diff = λ _. ok "{}";
    resilience = λ _. ok "{}";
    explanation = λ _. ok "{}";
    poc = λ _. ok "{}";
  };
  decode_report = λ _. err "bad";
  decode_criteria = λ _. err "bad";
  write = λ _. none;
  write_file = λ _ _. none;
}

execute_usage_example : is_two (execute world (ok (flags, explain_command false []))).1 ≡ true
execute_usage_example = execute_usage world (ok (flags, explain_command false []))

run_command_has_report_example : reads_no_report (run_command world flags poc_command).1 ≡ false
run_command_has_report_example = run_command_has_report world flags poc_command

abbrev watched : Service Fraction
watched = record {
  cfg = record defaults { scenario = "healthy"; watch_duration = pos 30 };
  source = scenario_source "healthy";
}

watched_accepted : validate watched.cfg ≡ []
unfolding validate faults defaults trim_space to_lower
watched_accepted = refl

abbrev first : Snapshot Fraction
first = record (expanded plan) { collected_at = pos 7 }

run_analyze_watch_example :
    run_analyze world watched
    ≡ before
        (sample_texts
          (health_page world watched.cfg)
          1
          (map (analyze_snapshot watched.cfg) (first ∷ town ∷ [])))
        (run_changes world watched.cfg (
          diff_reports "watch start"
            (some (analyze_snapshot watched.cfg first))
            (some (analyze_snapshot watched.cfg town))))
unfolding defaults collected collect_scenario expand health_error write_page page render_opts
run_analyze_watch_example =
    run_analyze_watch world watched first (town ∷ []) deadline_exceeded [] watched_accepted refl
      refl refl refl refl refl (refl, (refl, tt))

abbrev compared : Config Fraction
compared = record defaults { scenario = "healthy"; diff_file = "old.json" }

-- The file holds a report of another snapshot.
abbrev recorded : World Fraction
recorded = record world { decode_report = λ _. ok (analyze_snapshot compared town) }

abbrev once : Service Fraction
once = record { cfg = compared; source = scenario_source "healthy" }

run_analyze-Compared_example :
    Compared recorded compared
      (analyze_snapshot compared first)
      (load_health_report recorded compared.diff_file)
      (run_analyze recorded once)
unfolding defaults collected collect_scenario expand
run_analyze-Compared_example = run_analyze-Compared recorded once first refl refl refl refl
