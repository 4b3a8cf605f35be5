-- ===== src/Cli/Runs.antt =====
-- internal/adapter/inbound/cli/root.go: how a command ends, and the texts that it has then written.
use yb_doctor.Base.{
  ℕ, ◌+◌, String, Option, none, some, List, [], ◌∷◌, ◌++◌, ltb, concat, show_ℕ, if◌then◌else◌,
  Result, ok, err,
}
use yb_doctor.Config.{Config}
use yb_doctor.App.Watch.{Fault, bad_interval, analyze_failed, emit_failed, watch_failed}
use yb_doctor.Cli.Render.Pieces.{Options}
use yb_doctor.Cli.Service.{CliFault, failure, is_usage}

-- How a command ends: without an error, with one, or not yet, while a watch goes on. `no_report` is the end of
-- a command that goes on with the nil report of a watch, which has ended without a report and without an error.
-- It is the one panic that this type tells apart.
pub data Exit : Type 0 where
  finished : Exit
  faulted : CliFault → Exit
  watching : Exit
  no_report : Exit

-- The exit code of `Execute`: none while the command goes on, or where it reads a nil report.
unfoldable pub exit_code : Exit → Option ℕ
exit_code finished = some 0
exit_code (faulted e) = some (if is_usage e then 2 else 1)
exit_code watching = none
exit_code no_report = none

-- The texts that are written, and the end.
abbrev pub Run : Type 0
Run = List String × Exit

abbrev pub before : List String → Run → Run
before texts (more, exit) = (texts ++ more, exit)

unfoldable pub render_opts : {F : Type 0} → Config F → Options
render_opts cfg = record { format = cfg.format; no_color = cfg.no_color }

-- `return fmt.Errorf(op + ": %w", err)` if there is an error.
abbrev pub ends : String → Option String → Exit
ends op none = finished
ends op (some e) = faulted (failure (concat (op ∷ ": " ∷ e ∷ [])))

-- The text of a page, if there is one to write.
abbrev pub shown : Result String → List String
shown (ok s) = s ∷ []
shown (err _) = []

-- The texts of `emit`, from the n-th sample on, each but the first with its headline before it.
unfoldable pub sample_texts : {A : Type 0} → (A → Result String) → ℕ → List A → List String
sample_texts view n [] = []
sample_texts view n (r ∷ rs) =
    (if ltb 1 n then concat ("\n--- sample " ∷ show_ℕ n ∷ " ---\n" ∷ []) ∷ [] else [])
    ++ shown (view r)
    ++ sample_texts view (n + 1) rs

unfoldable pub fault_text : Fault → String
fault_text bad_interval = "app: watch interval must be > 0"
fault_text (analyze_failed e) = e
fault_text (emit_failed e) = concat ("emit analyze: " ∷ e ∷ [])
fault_text watch_failed = "watch"
