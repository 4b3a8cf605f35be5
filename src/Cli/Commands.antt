-- ===== src/Cli/Commands.antt =====
-- internal/adapter/inbound/cli/root.go: the commands and `Execute`. What a command writes to the standard output is
-- the list of the texts, in order; the last may be one whose write fails. The reading of the arguments is
-- a third party's: a command with its flags, or an error. The help of the command without a name is
-- its too.
use yb_doctor.Base.{
  ℕ, String, Bool, true, false, ◌&&◌, not, Option, none, some, List, [], ◌∷◌, map, pos, ltb_ℤ,
  eqb_ℤ, str_eq, concat, if◌then◌else◌, Result, ok, err,
}
use yb_doctor.Float.{Float64}
use yb_doctor.Config.{Config}
use yb_doctor.Domain.Report.{HealthReport, HealthDiff}
use yb_doctor.App.Service.{analyze, analyze_snapshot, resilience, poc}
use yb_doctor.App.Explain.{explain, known_finding_codes}
use yb_doctor.App.Diff.{diff_reports}
use yb_doctor.App.Watch.{
  Attempt, sampled, stopped, failed, Event, tick, done, Watching, running, returned, watch_analyze,
}
use yb_doctor.Cli.Flags.{RuntimeFlags}
use yb_doctor.Cli.Render.Pieces.{colors, page, write_page, diff_text}
use yb_doctor.Cli.Render.Health.{health_text}
use yb_doctor.Cli.Render.Reports.{resilience_text, explain_text, poc_text}
use yb_doctor.Cli.World.{World, Beat, beat, interrupted, ended}
use yb_doctor.Cli.Service.{
  bad_explain, failure, went, stop, Service, build_service, collected, load_health_report,
  write_health_report, chosen_criteria,
}
use yb_doctor.Cli.Runs.{
  finished, faulted, watching, no_report, exit_code, Run, before, render_opts, ends, shown,
  sample_texts, fault_text,
}

pub data Command : Type 0 where
  analyze_command resilience_command poc_command version_command : Command
  -- With `--list`, and the arguments.
  explain_command : Bool → List String → Command

module _ {F : Type 0} ⦃f : Float64 F⦄ where
  -- What `Analyze` answers at an event of the watch, and at its start.
  unfoldable pub event_of : Config F → Beat F → Event F
  event_of cfg (beat (ok s)) = tick (sampled (analyze_snapshot cfg s))
  event_of cfg (beat (err e)) = tick (failed (concat ("collect snapshot: " ∷ e ∷ [])))
  event_of cfg (interrupted e) = tick (stopped (concat ("collect snapshot: " ∷ e ∷ [])))
  event_of cfg (ended reason) = done reason

  unfoldable pub attempt_of : Result (HealthReport F) → Attempt F
  attempt_of (ok r) = sampled r
  attempt_of (err e) = failed e

  module _ (world : World F) where
    -- `render.Health` and `render.Changes`: the page, and the error of writing it.
    unfoldable pub health_page : Config F → HealthReport F → Result String
    health_page cfg r =
        page (render_opts cfg) (world.encoder.health r)
          (health_text (colors (render_opts cfg).no_color) r)

    unfoldable pub health_error : Config F → HealthReport F → Option String
    health_error cfg r =
        write_page world.write (render_opts cfg) (world.encoder.health r)
          (health_text (colors (render_opts cfg).no_color) r)

    unfoldable pub changes_page : Config F → HealthDiff F → Result String
    changes_page cfg d =
        page (render_opts cfg) (world.encoder.diff d)
          (diff_text (colors (render_opts cfg).no_color) d)

    unfoldable pub changes_error : Config F → HealthDiff F → Option String
    changes_error cfg d =
        write_page world.write (render_opts cfg) (world.encoder.diff d)
          (diff_text (colors (render_opts cfg).no_color) d)

    unfoldable pub run_health : Config F → HealthReport F → Run
    unfolding health_page health_error
    run_health cfg r = (shown (health_page cfg r), ends "render" (health_error cfg r))

    -- A missing difference writes nothing.
    unfoldable pub run_changes : Config F → Option (HealthDiff F) → Run
    unfolding changes_page changes_error
    run_changes cfg none = ([], finished)
    run_changes cfg (some d) = (shown (changes_page cfg d), ends "render" (changes_error cfg d))

    -- The `switch` of `analyze`.
    unfoldable pub run_pages : Config F → HealthReport F → Run
    unfolding run_health run_changes
    run_pages cfg r =
        let has_diff : Bool = elim r.diff [ none ↦ false | some _ ↦ true ] in
        if ltb_ℤ (pos 0) cfg.watch_duration && has_diff && str_eq cfg.diff_file ""
        then run_changes cfg r.diff
        else if eqb_ℤ cfg.watch_duration (pos 0)
        then run_health cfg r
        else if not (str_eq cfg.diff_file "")
        then run_changes cfg r.diff
        else ([], finished)

    -- The file of `--out`, which is written if the pages were.
    unfoldable pub write_out : Config F → HealthReport F → Run → Run
    write_out cfg r (texts, faulted e) = (texts, faulted e)
    write_out cfg r (texts, exit) =
        if str_eq cfg.out_file ""
        then (texts, exit)
        else elim (write_health_report world cfg.out_file r) [
          | none ↦ (texts, exit)
          | some e ↦ (texts, faulted (failure e))
        ]

    -- `analyze` with its report, after the watch or the one analysis.
    unfoldable pub finish_analyze : Config F → HealthReport F → Run
    unfolding run_pages write_out
    finish_analyze cfg r =
        if str_eq cfg.diff_file ""
        then write_out cfg r (run_pages cfg r)
        else elim (load_health_report world cfg.diff_file) [
          | err e ↦ ([], faulted (failure e))
          | ok prev ↦
              let compared = record r { diff = diff_reports cfg.diff_file (some prev) (some r) } in
              write_out cfg compared (run_pages cfg compared)
        ]

    unfoldable pub end_watch : Config F → Watching F → Run
    unfolding finish_analyze
    end_watch cfg (running last log) = (sample_texts (health_page cfg) 1 log, watching)
    end_watch cfg (returned r (some e) log) =
        (sample_texts (health_page cfg) 1 log, faulted (failure (fault_text e)))
    end_watch cfg (returned none none log) = (sample_texts (health_page cfg) 1 log, no_report)
    end_watch cfg (returned (some r) none log) =
        before (sample_texts (health_page cfg) 1 log) (finish_analyze cfg r)

    unfoldable pub watch_service : Service F → Run
    unfolding end_watch
    watch_service svc = end_watch svc.cfg (
        watch_analyze svc.cfg.watch_interval (some (health_error svc.cfg))
          (attempt_of (analyze svc.cfg (collected world svc))) (map (event_of svc.cfg) world.beats))

    unfoldable pub run_analyze : Service F → Run
    unfolding watch_service finish_analyze
    run_analyze svc =
        if ltb_ℤ (pos 0) svc.cfg.watch_duration
        then watch_service svc
        else elim (analyze svc.cfg (collected world svc)) [
          | err e ↦ ([], faulted (failure e))
          | ok r ↦ finish_analyze svc.cfg r
        ]

    -- A report, or an error, with the page of the report and the error of writing it.
    unfoldable pub run_report :
        {A : Type 0} → Config F → Result A → (A → Result String) → (A → String) → Run
    run_report cfg (err e) encode text = ([], faulted (failure e))
    run_report cfg (ok r) encode text = (
      shown (page (render_opts cfg) (encode r) (text r)),
      ends "render" (write_page world.write (render_opts cfg) (encode r) (text r)),
    )

    unfoldable pub run_resilience : Service F → Run
    unfolding run_report
    run_resilience svc =
        run_report svc.cfg (resilience (collected world svc)) world.encoder.resilience
          (resilience_text (colors svc.cfg.no_color))

    unfoldable pub run_explain : String → Service F → Run
    unfolding run_report
    run_explain code svc =
        run_report svc.cfg (explain world.quote svc.cfg (collected world svc) code)
          world.encoder.explanation (explain_text (colors svc.cfg.no_color))

    unfoldable pub run_poc : RuntimeFlags → Service F → Run
    unfolding run_report
    run_poc flags svc = elim (chosen_criteria world flags svc.cfg) [
      | err e ↦ ([], faulted (failure e))
      | ok criteria ↦
          run_report svc.cfg (poc svc.cfg (collected world svc) criteria) world.encoder.poc
            (poc_text (colors svc.cfg.no_color))
    ]

    unfoldable pub with_service : RuntimeFlags → (Service F → Run) → Run
    with_service flags run = elim (build_service world flags) [
      | stop e ↦ ([], faulted e)
      | went svc ↦ run svc
    ]

    unfoldable pub run_command : RuntimeFlags → Command → Run
    unfolding with_service
    run_command flags analyze_command = with_service flags run_analyze
    run_command flags resilience_command = with_service flags run_resilience
    run_command flags poc_command = with_service flags (run_poc flags)
    run_command flags version_command =
        (concat ("yb-doctor " ∷ world.version ∷ "\n" ∷ []) ∷ [], finished)
    run_command flags (explain_command true args) =
        (map (λ code. concat (code ∷ "\n" ∷ [])) known_finding_codes, finished)
    run_command flags (explain_command false []) = ([], faulted bad_explain)
    run_command flags (explain_command false (code ∷ [])) = with_service flags (run_explain code)
    run_command flags (explain_command false (code ∷ other ∷ args)) = ([], faulted bad_explain)

    -- `Execute`, of the arguments as they are read.
    unfoldable pub execute : Result (RuntimeFlags × Command) → List String × Option ℕ
    unfolding run_command exit_code
    execute (err e) = ([], some 1)
    execute (ok (flags, command)) =
        let (texts, exit) = run_command flags command in (texts, exit_code exit)
