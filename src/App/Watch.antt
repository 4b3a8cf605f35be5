-- ===== src/App/Watch.antt =====
-- internal/app/watch.go: `WatchAnalyze` as a machine that takes the events of its `select`: a tick,
-- with what `Analyze` then answers, or the end of the context. The list of events is what the
-- clock and the context do; the machine may still be waiting at its end. `log` is what was emitted.
pub mod Samples
pub mod Interval
use yb_doctor.Base.{
  String, Bool, true, false, Option, none, some, List, [], ◌∷◌, ◌++◌, ℤ, pos, leb_ℤ, if◌then◌else◌,
}
use yb_doctor.Domain.Report.{HealthReport}
use yb_doctor.App.Diff.{diff_reports}

pub data Reason : Type 0 where
  deadline_exceeded canceled other_reason : Reason

-- What `Analyze` answers: a report, an error of the context, or another error.
pub data Attempt (F : Type 0) : Type 0 where
  sampled : HealthReport F → Attempt F
  stopped : String → Attempt F
  failed : String → Attempt F

pub data Event (F : Type 0) : Type 0 where
  tick : Attempt F → Event F
  done : Reason → Event F

pub data Fault : Type 0 where
  bad_interval : Fault
  analyze_failed : String → Fault
  emit_failed : String → Fault
  watch_failed : Fault

pub data Watching (F : Type 0) : Type 0 where
  running : HealthReport F → List (HealthReport F) → Watching F
  returned : Option (HealthReport F) → Option Fault → List (HealthReport F) → Watching F

abbrev pub is_expected : Reason → Bool
is_expected other_reason = false
is_expected _ = true

module _ {F : Type 0} where
  -- `last.Diff = DiffReports("watch start", first, last)`
  unfoldable pub close : HealthReport F → HealthReport F → HealthReport F
  close first last = record last { diff = diff_reports "watch start" (some first) (some last) }

  -- `emit` may be nil; then nothing is emitted, and nothing fails.
  abbrev pub emit_error : Option (HealthReport F → Option String) → HealthReport F → Option String
  emit_error none r = none
  emit_error (some emit) r = emit r

  abbrev pub emitted :
      Option (HealthReport F → Option String) → HealthReport F → List (HealthReport F)
  emitted none r = []
  emitted (some emit) r = r ∷ []

  module _ (emit : Option (HealthReport F → Option String)) (first : HealthReport F) where
    unfoldable pub watch_from : HealthReport F → List (HealthReport F) → List (Event F) → Watching F
    watch_from last log [] = running last log
    watch_from last log (done reason ∷ es) =
        returned (some (close first last)) (if is_expected reason then none else some watch_failed)
          log
    watch_from last log (tick (stopped e) ∷ es) = returned (some (close first last)) none log
    watch_from last log (tick (failed e) ∷ es) = returned (some last) (some (analyze_failed e)) log
    watch_from last log (tick (sampled r) ∷ es) =
        let rest = watch_from r (log ++ emitted emit r) es in
        elim (emit_error emit r) [
          | some e ↦ returned (some r) (some (emit_failed e)) (log ++ emitted emit r)
          | none ↦ rest
        ]

  unfoldable pub start_watch :
      Option (HealthReport F → Option String) → HealthReport F → List (Event F) → Watching F
  start_watch emit first es = elim (emit_error emit first) [
    | some e ↦ returned none (some (emit_failed e)) (emitted emit first)
    | none ↦ watch_from emit first first (emitted emit first) es
  ]

  unfoldable pub watch_analyze :
      ℤ → Option (HealthReport F → Option String) → Attempt F → List (Event F) → Watching F
  watch_analyze interval emit attempt es =
      if leb_ℤ interval (pos 0) then returned none (some bad_interval) [] else elim attempt [
        | sampled first ↦ start_watch emit first es
        | stopped e ↦ returned none (some (analyze_failed e)) []
        | failed e ↦ returned none (some (analyze_failed e)) []
      ]
