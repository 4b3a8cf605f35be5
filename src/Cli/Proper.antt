-- ===== src/Cli/Proper.antt =====
-- internal/adapter/inbound/cli/root.go: a command that has its service ends without reading a nil report, and without
-- the fault of a wrong usage.
use yb_doctor.Base.{
  String, Bool, true, false, not, ◌≡◌, refl, Option, none, some, List, [], map, ℤ, pos, ltb_ℤ,
  Result, ok, err, if◌then◌else◌, arith, str_eq,
}
use yb_doctor.Float.{Float64}
use yb_doctor.Config.{Config}
use yb_doctor.Domain.Report.{HealthReport, HealthDiff}
use yb_doctor.App.Service.{analyze, resilience, poc}
use yb_doctor.App.Explain.{explain}
use yb_doctor.App.Watch.{Event, sampled, Watching, running, returned, watch_analyze}
use yb_doctor.App.Watch.Samples.{Closed, watch_analyze-Closed}
use yb_doctor.App.Diff.{diff_reports}
use yb_doctor.Cli.Render.Pieces.{write_page}
use yb_doctor.Cli.Render.Pieces.{colors}
use yb_doctor.Cli.Render.Reports.{poc_text, resilience_text, explain_text}
use yb_doctor.Cli.Flags.{RuntimeFlags}
use yb_doctor.Cli.World.{World}
use yb_doctor.Cli.Service.{
  failure, is_usage, Service, collected, chosen_criteria, load_health_report,
}
use yb_doctor.Cli.Runs.{Exit, finished, faulted, watching, no_report, Run, ends, render_opts}
use yb_doctor.Cli.Commands.{
  health_error, changes_error, run_health, run_changes, run_pages, write_out, finish_analyze,
  end_watch, watch_service, run_analyze, run_report, run_resilience, run_explain, run_poc,
  attempt_of, event_of,
}

-- The end is neither the read of a nil report nor the fault of a wrong usage.
abbrev pub is_proper : Exit → Bool
is_proper (faulted e) = not (is_usage e)
is_proper no_report = false
is_proper finished = true
is_proper watching = true

ends_proper : (op : String) (e : Option String) → is_proper (ends op e) ≡ true
ends_proper op none = refl
ends_proper op (some e) = refl

branch_proper :
    (b : Bool) (x y : Run)
    → is_proper x.1 ≡ true
    → is_proper y.1 ≡ true
    → is_proper (if b then x else y).1 ≡ true
branch_proper b x y h k = ground arith

-- What is done with a value, if there is one.
result_proper :
    {A : Type 0} (r : Result A) (run : A → Run)
    → ((a : A) → is_proper (run a).1 ≡ true)
    → is_proper (elim r as (λ x. Run) [ err e ↦ ([], faulted (failure e)) | ok a ↦ run a ]).1 ≡ true
result_proper (err e) run h = refl
result_proper (ok a) run h = h a

module _ {F : Type 0} ⦃f : Float64 F⦄ (world : World F) where
  run_health_proper :
      (cfg : Config F) (r : HealthReport F) → is_proper (run_health world cfg r).1 ≡ true
  unfolding run_health
  run_health_proper cfg r = ends_proper "render" (health_error world cfg r)

  run_changes_proper :
      (cfg : Config F) (d : Option (HealthDiff F)) → is_proper (run_changes world cfg d).1 ≡ true
  unfolding run_changes
  run_changes_proper cfg none = refl
  run_changes_proper cfg (some d) = ends_proper "render" (changes_error world cfg d)

  run_pages_proper :
      (cfg : Config F) (r : HealthReport F) → is_proper (run_pages world cfg r).1 ≡ true
  unfolding run_pages
  run_pages_proper cfg r = ground (arith, run_health_proper cfg r, run_changes_proper cfg r.diff)

  write_out_proper :
      (cfg : Config F) (r : HealthReport F) (run : Run)
      → is_proper run.1 ≡ true
      → is_proper (write_out world cfg r run).1 ≡ true
  unfolding write_out
  write_out_proper cfg r (texts, finished) h = ground arith
  write_out_proper cfg r (texts, watching) h = ground arith
  write_out_proper cfg r (texts, no_report) h = cc
  write_out_proper cfg r (texts, faulted e) h = h

  finish_analyze_proper :
      (cfg : Config F) (r : HealthReport F) → is_proper (finish_analyze world cfg r).1 ≡ true
  unfolding finish_analyze
  finish_analyze_proper cfg r =
      branch_proper (str_eq cfg.diff_file "") _ _
        (write_out_proper cfg r (run_pages world cfg r) (run_pages_proper cfg r))
        (result_proper (load_health_report world cfg.diff_file) _ (λ prev.
          let compared = record r { diff = diff_reports cfg.diff_file (some prev) (some r) } in
          write_out_proper cfg compared (run_pages world cfg compared)
            (run_pages_proper cfg compared)))

  -- A watch that has ended with neither a report nor an error.
  abbrev is_empty : Watching F → Bool
  is_empty (returned none none log) = true
  is_empty _ = false

  Closed-is_empty : (first : HealthReport F) (w : Watching F) → Closed first w → is_empty w ≡ false
  Closed-is_empty first (running last log) h = refl
  Closed-is_empty first (returned none (some e) log) h = refl
  Closed-is_empty first (returned (some r) e log) h = refl
  Closed-is_empty first (returned none none log) (last, h) = cc

  watch_analyze-is_empty :
      (interval : ℤ) (emit : Option (HealthReport F → Option String)) (r : Result (HealthReport F))
      (es : List (Event F))
      → is_empty (watch_analyze interval emit (attempt_of r) es) ≡ false
  unfolding attempt_of watch_analyze
  watch_analyze-is_empty interval emit (ok r) es =
      Closed-is_empty r (watch_analyze interval emit (sampled r) es)
        (watch_analyze-Closed interval emit r es)
  watch_analyze-is_empty interval emit (err e) es = ground arith

  end_watch_proper :
      (cfg : Config F) (w : Watching F)
      → is_empty w ≡ false
      → is_proper (end_watch world cfg w).1 ≡ true
  unfolding end_watch
  end_watch_proper cfg (running last log) h = refl
  end_watch_proper cfg (returned none (some e) log) h = refl
  end_watch_proper cfg (returned (some r) (some e) log) h = refl
  end_watch_proper cfg (returned none none log) h = cc
  end_watch_proper cfg (returned (some r) none log) h = finish_analyze_proper cfg r

  pub run_analyze_proper : (svc : Service F) → is_proper (run_analyze world svc).1 ≡ true
  unfolding run_analyze watch_service
  run_analyze_proper svc =
      branch_proper (ltb_ℤ (pos 0) svc.cfg.watch_duration) _ _
        (end_watch_proper svc.cfg _ (
          watch_analyze-is_empty svc.cfg.watch_interval (some (health_error world svc.cfg))
            (analyze svc.cfg (collected world svc)) (map (event_of svc.cfg) world.beats)))
        (result_proper (analyze svc.cfg (collected world svc)) _ (finish_analyze_proper svc.cfg))

  run_report_proper :
      {A : Type 0} (cfg : Config F) (r : Result A) (encode : A → Result String) (text : A → String)
      → is_proper (run_report world cfg r encode text).1 ≡ true
  unfolding run_report
  run_report_proper cfg (err e) encode text = refl
  run_report_proper cfg (ok r) encode text =
      ends_proper "render" (write_page world.write (render_opts cfg) (encode r) (text r))

  pub run_poc_proper :
      (flags : RuntimeFlags) (svc : Service F) → is_proper (run_poc world flags svc).1 ≡ true
  unfolding run_poc
  run_poc_proper flags svc = result_proper (chosen_criteria world flags svc.cfg) _ (λ criteria.
      run_report_proper svc.cfg (poc svc.cfg (collected world svc) criteria) world.encoder.poc
        (poc_text (colors svc.cfg.no_color)))

  pub run_resilience_proper : (svc : Service F) → is_proper (run_resilience world svc).1 ≡ true
  unfolding run_resilience
  run_resilience_proper svc =
      run_report_proper svc.cfg (resilience (collected world svc)) world.encoder.resilience
        (resilience_text (colors svc.cfg.no_color))

  pub run_explain_proper :
      (code : String) (svc : Service F) → is_proper (run_explain world code svc).1 ≡ true
  unfolding run_explain
  run_explain_proper code svc =
      run_report_proper svc.cfg (explain world.quote svc.cfg (collected world svc) code)
        world.encoder.explanation (explain_text (colors svc.cfg.no_color))
