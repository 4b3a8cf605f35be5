-- ===== src/Cli/Printed.antt =====
-- internal/adapter/inbound/cli/root.go with internal/app/watch.go: what `analyze --watch` writes.
use yb_doctor.Base.{
  true, ◌≡◌, refl, ◌∙◌, ap, none, some, List, [], ◌∷◌, ◌++◌, map, All, pos, ltb_ℤ, str_eq, Bool,
  if◌then◌else◌, arith, ok,
}
use yb_doctor.Float.{Float64}
use yb_doctor.Config.{Config}
use yb_doctor.Config.Validate.{validate}
use yb_doctor.Domain.Cluster.{Snapshot}
use yb_doctor.Domain.Report.{HealthReport}
use yb_doctor.App.Diff.{diff_reports}
use yb_doctor.App.Service.{analyze, analyze_snapshot}
use yb_doctor.App.Watch.{tick, sampled, done, Reason, is_expected, close, watch_analyze, returned}
use yb_doctor.App.Watch.Samples.{Accepts, last_of, ticks, watch_analyze_samples}
use yb_doctor.App.Watch.Interval.{validate-positive}
use yb_doctor.Cli.World.{World, Beat, beat, ended}
use yb_doctor.Cli.Service.{Service, collected}
use yb_doctor.Cli.Runs.{finished, faulted, watching, no_report, Run, before, sample_texts}
use yb_doctor.Cli.Commands.{
  event_of, attempt_of, health_page, health_error, run_changes, run_pages, write_out,
  finish_analyze, end_watch, watch_service, run_analyze,
}

pub chosen : (b : Bool) (x y : Run) → b ≡ true → (if b then x else y) ≡ x
chosen b x y h = ground arith

module _ {F : Type 0} ⦃f : Float64 F⦄ where
  events_of_snapshots :
      (cfg : Config F) (ss : List (Snapshot F)) (reason : Reason) (after : List (Beat F))
      → map (event_of cfg) (map (λ s. beat (ok s)) ss ++ ended reason ∷ after)
        ≡ ticks (map (analyze_snapshot cfg) ss) ++ done reason ∷ map (event_of cfg) after
  unfolding event_of
  events_of_snapshots cfg [] reason after = refl
  events_of_snapshots cfg (s ∷ ss) reason after =
      ap (◌∷◌ (tick (sampled (analyze_snapshot cfg s)))) (events_of_snapshots cfg ss reason after)

  module _ (world : World F) (cfg : Config F) where
    pub write_out_none :
        (r : HealthReport F) (run : Run)
        → str_eq cfg.out_file "" ≡ true
        → write_out world cfg r run ≡ run
    unfolding write_out
    write_out_none r (texts, faulted e) o = refl
    write_out_none r (texts, finished) o = rw o refl
    write_out_none r (texts, watching) o = rw o refl
    write_out_none r (texts, no_report) o = rw o refl

    run_pages-close :
        (first last : HealthReport F)
        → ltb_ℤ (pos 0) cfg.watch_duration ≡ true
        → str_eq cfg.diff_file "" ≡ true
        → run_pages world cfg (close first last)
          ≡ run_changes world cfg (diff_reports "watch start" (some first) (some last))
    unfolding run_pages close diff_reports
    run_pages-close first last h k = rw (h, k) refl

    -- The changes of the last report from the first, as a watch ends with them.
    finish_analyze-close :
        (first last : HealthReport F)
        → ltb_ℤ (pos 0) cfg.watch_duration ≡ true
        → str_eq cfg.diff_file "" ≡ true
        → str_eq cfg.out_file "" ≡ true
        → finish_analyze world cfg (close first last)
          ≡ run_changes world cfg (diff_reports "watch start" (some first) (some last))
    unfolding finish_analyze
    finish_analyze-close first last h k o =
        chosen (str_eq cfg.diff_file "") _ _ k
        ∙ write_out_none (close first last) (run_pages world cfg (close first last)) o
        ∙ run_pages-close first last h k

  -- The watch of a command over snapshots that can all be read and written.
  watch_snapshots :
      (world : World F) (svc : Service F) (s : Snapshot F) (ss : List (Snapshot F))
      (reason : Reason) (after : List (Beat F))
      → validate svc.cfg ≡ []
      → is_expected reason ≡ true
      → collected world svc ≡ ok s
      → world.beats ≡ map (λ s. beat (ok s)) ss ++ ended reason ∷ after
      → All (Accepts (health_error world svc.cfg)) (map (analyze_snapshot svc.cfg) (s ∷ ss))
      → watch_analyze svc.cfg.watch_interval
          (some (health_error world svc.cfg))
          (attempt_of (analyze svc.cfg (collected world svc)))
          (map (event_of svc.cfg) world.beats)
        ≡ returned
            (some (
              close
                (analyze_snapshot svc.cfg s)
                (last_of (analyze_snapshot svc.cfg s) (map (analyze_snapshot svc.cfg) ss))))
            none
            (map (analyze_snapshot svc.cfg) (s ∷ ss))
  unfolding analyze attempt_of health_error
  watch_snapshots world svc s ss reason after v e c b a =
      rw (c, b, events_of_snapshots svc.cfg ss reason after)
        (watch_analyze_samples svc.cfg.watch_interval (health_error world svc.cfg)
          (analyze_snapshot svc.cfg s) (map (analyze_snapshot svc.cfg) ss) reason
          (map (event_of svc.cfg) after) (validate-positive svc.cfg v) a e)

  -- A watch of an accepted configuration, without `--diff` and `--out`, whose snapshots can all be read and
  -- whose pages can all be written, and whose context then ends by its deadline or a cancellation, writes the
  -- page of each snapshot's report in order, each but the first under its number, and then the changes
  -- of the last report from the first, and ends as the writing of the changes does.
  pub run_analyze_watch :
      (world : World F) (svc : Service F) (s : Snapshot F) (ss : List (Snapshot F))
      (reason : Reason) (after : List (Beat F))
      → validate svc.cfg ≡ []
      → ltb_ℤ (pos 0) svc.cfg.watch_duration ≡ true
      → str_eq svc.cfg.diff_file "" ≡ true
      → str_eq svc.cfg.out_file "" ≡ true
      → is_expected reason ≡ true
      → collected world svc ≡ ok s
      → world.beats ≡ map (λ s. beat (ok s)) ss ++ ended reason ∷ after
      → All (Accepts (health_error world svc.cfg)) (map (analyze_snapshot svc.cfg) (s ∷ ss))
      → run_analyze world svc
        ≡ before
            (sample_texts (health_page world svc.cfg) 1 (map (analyze_snapshot svc.cfg) (s ∷ ss)))
            (run_changes world svc.cfg (
              diff_reports "watch start"
                (some (analyze_snapshot svc.cfg s))
                (some (last_of (analyze_snapshot svc.cfg s) (map (analyze_snapshot svc.cfg) ss)))))
  unfolding run_analyze watch_service end_watch
  run_analyze_watch world svc s ss reason after v h k o e c b a =
      chosen (ltb_ℤ (pos 0) svc.cfg.watch_duration) _ _ h
      ∙ ap (end_watch world svc.cfg) (watch_snapshots world svc s ss reason after v e c b a)
      ∙ ap
          (before
            (sample_texts (health_page world svc.cfg) 1 (map (analyze_snapshot svc.cfg) (s ∷ ss))))
          (finish_analyze-close world svc.cfg (analyze_snapshot svc.cfg s)
            (last_of (analyze_snapshot svc.cfg s) (map (analyze_snapshot svc.cfg) ss)) h k o)
