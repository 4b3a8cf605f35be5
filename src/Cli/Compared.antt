-- ===== src/Cli/Compared.antt =====
-- internal/adapter/inbound/cli/root.go with internal/app/diff.go: a report compared with that of a file, by `--diff`.
use mathlib.Core.Path.{subst}
use yb_doctor.Base.{
  true, false, ◌≡◌, refl, sym, ◌∙◌, some, ℤ, pos, ltb_ℤ, eqb_ℤ, str_eq, Result, ok, err, Bool, [],
  if◌then◌else◌, arith,
}
use yb_doctor.Float.{Float64}
use yb_doctor.Config.{Config}
use yb_doctor.Domain.Cluster.{Snapshot}
use yb_doctor.Domain.Report.{HealthReport, HealthDiff}
use yb_doctor.App.Diff.{diff_of, diff_reports}
use yb_doctor.App.Diff.Between.{IsBetween, diff_of-IsBetween}
use yb_doctor.App.Service.{analyze, analyze_snapshot}
use yb_doctor.Cli.World.{World}
use yb_doctor.Cli.Service.{Service, collected, failure, load_health_report}
use yb_doctor.Cli.Runs.{faulted, Run}
use yb_doctor.Cli.Commands.{run_analyze, run_health, run_pages, write_out, finish_analyze}
use yb_doctor.Cli.Printed.{write_out_none}

pub branch : (b : Bool) (x y : Run) → b ≡ false → (if b then x else y) ≡ y
branch b x y h = ground arith

pub went_on :
    {A : Type 0} (r : Result A) (run : A → Run) (a : A)
    → r ≡ ok a
    → elim r as (λ x. Run) [ err e ↦ ([], faulted (failure e)) | ok a ↦ run a ] ≡ run a
went_on r run a h = rw h refl

pub not_watched : (n : ℤ) → eqb_ℤ n (pos 0) ≡ true → ltb_ℤ (pos 0) n ≡ false
not_watched n h = ground arith

module _ {F : Type 0} ⦃f : Float64 F⦄ (world : World F) where
  pub analyze-collected :
      (svc : Service F) (s : Snapshot F)
      → collected world svc ≡ ok s
      → analyze svc.cfg (collected world svc) ≡ ok (analyze_snapshot svc.cfg s)
  unfolding analyze
  analyze-collected svc s c = rw c refl

  pub run_pages_once :
      (cfg : Config F) (r : HealthReport F)
      → eqb_ℤ cfg.watch_duration (pos 0) ≡ true
      → run_pages world cfg r ≡ run_health world cfg r
  unfolding run_pages
  run_pages_once cfg r w = rw (not_watched cfg.watch_duration w, w) refl

  -- The run with the report that `--diff` names, or with the error of reading it.
  abbrev pub Compared : Config F → HealthReport F → Result (HealthReport F) → Run → Type 0
  Compared cfg r (err e) run = run ≡ ([], faulted (failure e))
  Compared cfg r (ok prev) run =
      (d : HealthDiff F) × (run ≡ run_health world cfg (record r { diff = some d }))
      × (d.baseline ≡ cfg.diff_file)
      × IsBetween prev r d

  -- `finish_analyze` where it goes on with the file of `--diff`.
  finish_analyze_compared :
      (cfg : Config F) (r : HealthReport F) (load : Result (HealthReport F))
      → eqb_ℤ cfg.watch_duration (pos 0) ≡ true
      → str_eq cfg.out_file "" ≡ true
      → Compared cfg r load (elim load as (λ x. Run) [
        | err e ↦ ([], faulted (failure e))
        | ok prev ↦
            let compared = record r { diff = diff_reports cfg.diff_file (some prev) (some r) } in
            write_out world cfg compared (run_pages world cfg compared)
      ])
  unfolding diff_reports diff_of
  finish_analyze_compared cfg r (err e) w o = refl
  finish_analyze_compared cfg r (ok prev) w o =
      let compared = record r { diff = some (diff_of cfg.diff_file prev r) } in
      (
        diff_of cfg.diff_file prev r,
        write_out_none world cfg compared (run_pages world cfg compared) o
            ∙ run_pages_once cfg compared w,
        refl,
        diff_of-IsBetween cfg.diff_file prev r,
      )

  -- A run with `--diff`, without a watch and without `--out`, on a snapshot that is collected: if the file cannot be read
  -- or decoded, it writes nothing and ends with the error; else it writes the health page of the snapshot's report with
  -- a difference that names the file and goes from its report to this one, and ends as its writing does.
  pub run_analyze-Compared :
      (svc : Service F) (s : Snapshot F)
      → eqb_ℤ svc.cfg.watch_duration (pos 0) ≡ true
      → str_eq svc.cfg.diff_file "" ≡ false
      → str_eq svc.cfg.out_file "" ≡ true
      → collected world svc ≡ ok s
      → Compared svc.cfg
          (analyze_snapshot svc.cfg s)
          (load_health_report world svc.cfg.diff_file)
          (run_analyze world svc)
  unfolding run_analyze finish_analyze
  run_analyze-Compared svc s w k o c =
      let r = analyze_snapshot svc.cfg s in
      let load = load_health_report world svc.cfg.diff_file in
      subst (Compared svc.cfg r load)
        (sym (
          branch (ltb_ℤ (pos 0) svc.cfg.watch_duration) _ _ (not_watched svc.cfg.watch_duration w)
          ∙ went_on (analyze svc.cfg (collected world svc)) (finish_analyze world svc.cfg) r
              (analyze-collected svc s c)
          ∙ branch (str_eq svc.cfg.diff_file "") _ _ k))
        (finish_analyze_compared svc.cfg r load w o)
