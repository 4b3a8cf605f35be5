-- ===== src/Cli/Exit.antt =====
-- internal/adapter/inbound/cli/root.go: when `Execute` ends the process with the code of a wrong usage, and that
-- no command goes on with the nil report of a watch.
use yb_doctor.Base.{
  ℕ, concat, ◌==◌, Bool, true, false, ◌&&◌, ◌||◌, not, ◌≡◌, refl, ◌∙◌, Option, none, some, [], ◌∷◌,
  length, Result, ok, err, arith, Bool-cases, inl, inr,
}
use yb_doctor.Float.{Float64}
use yb_doctor.Config.{Config}
use yb_doctor.Config.Validate.{validate}
use yb_doctor.Cli.Flags.{RuntimeFlags, load_config}
use yb_doctor.Cli.World.{World}
use yb_doctor.Cli.Service.{
  failure, is_usage, Step, went, stop, Service, build_service, checked_service, Source, new_service,
  new_collector,
}
use yb_doctor.Cli.Runs.{Exit, finished, faulted, watching, no_report, Run, exit_code}
use yb_doctor.Cli.Commands.{
  Command, analyze_command, resilience_command, poc_command, version_command, explain_command,
  run_analyze, run_resilience, run_explain, run_poc, with_service, run_command, execute,
}
use yb_doctor.Cli.Proper.{
  is_proper, run_analyze_proper, run_resilience_proper, run_explain_proper, run_poc_proper,
}

abbrev is_misuse : Exit → Bool
is_misuse (faulted e) = is_usage e
is_misuse _ = false

abbrev pub reads_no_report : Exit → Bool
reads_no_report no_report = true
reads_no_report _ = false

abbrev pub is_two : Option ℕ → Bool
is_two none = false
is_two (some n) = n == 2

-- `explain` wants one code, unless it lists them.
abbrev pub wrong_arguments : Command → Bool
wrong_arguments (explain_command listed args) = not listed && not (length args == 1)
wrong_arguments _ = false

-- The command is done without a service.
abbrev pub is_local : Command → Bool
is_local version_command = true
is_local (explain_command listed args) = listed || not (length args == 1)
is_local _ = false

proper_misuse : (exit : Exit) → is_proper exit ≡ true → is_misuse exit ≡ false
proper_misuse (faulted e) h = ground arith
proper_misuse no_report h = refl
proper_misuse finished h = refl
proper_misuse watching h = refl

proper_has_report : (exit : Exit) → is_proper exit ≡ true → reads_no_report exit ≡ false
proper_has_report no_report h = cc
proper_has_report (faulted e) h = refl
proper_has_report finished h = refl
proper_has_report watching h = refl

module _ {F : Type 0} ⦃f : Float64 F⦄ (world : World F) where
  abbrev pub has_faults : Result (Config F) → Bool
  has_faults (err e) = false
  has_faults (ok cfg) = not (length (validate cfg) == 0)

  -- The configuration is read, and has faults.
  abbrev pub wrong_configuration : RuntimeFlags → Bool
  wrong_configuration flags = has_faults (load_config world.sys flags)

  abbrev pub is_misused : Result (RuntimeFlags × Command) → Bool
  is_misused (err e) = false
  is_misused (ok (flags, command)) =
      wrong_arguments command || not (is_local command) && wrong_configuration flags

  -- What a command does with its service, if that is built.
  abbrev use_service : (Service F → Run) → Step (Service F) → Run
  use_service run (stop e) = ([], faulted e)
  use_service run (went svc) = run svc

  module _ (run : Service F → Run) (h : (svc : Service F) → is_proper (run svc).1 ≡ true) where
    with_source_misuse :
        (cfg : Config F) (r : Result (Source F))
        → length (validate cfg) == 0 ≡ true
        → is_misuse
            (use_service run (elim r as (λ x. Step (Service F)) [
              | err e ↦ stop (failure e)
              | ok source ↦ new_service cfg source
            ])).1
          ≡ false
    unfolding new_service
    with_source_misuse cfg (err e) v = refl
    with_source_misuse cfg (ok source) v = rw v (
        proper_misuse (run (record { cfg = cfg; source = source })).1
          (h (record { cfg = cfg; source = source })))

    checked_service_misuse :
        (cfg : Config F)
        → is_misuse (use_service run (checked_service world cfg)).1
          ≡ not (length (validate cfg) == 0)
    unfolding checked_service
    checked_service_misuse cfg = elim (Bool-cases (length (validate cfg) == 0)) [
      | inl v ↦ rw v (with_source_misuse cfg (new_collector world cfg) v)
      | inr v ↦ rw v refl
    ]

    loaded_misuse :
        (r : Result (Config F))
        → is_misuse
            (use_service run (elim r as (λ x. Step (Service F)) [
              | err e ↦ stop (failure (concat ("load config: " ∷ e ∷ [])))
              | ok cfg ↦ checked_service world cfg
            ])).1
          ≡ has_faults r
    loaded_misuse (err e) = refl
    loaded_misuse (ok cfg) = checked_service_misuse cfg

    with_service_misuse :
        (flags : RuntimeFlags)
        → is_misuse (with_service world flags run).1 ≡ wrong_configuration flags
    unfolding with_service build_service
    with_service_misuse flags = loaded_misuse (load_config world.sys flags)

  -- A command that needs a service is one that ends properly once it has it.
  run_command_misuse :
      (flags : RuntimeFlags) (command : Command)
      → is_misuse (run_command world flags command).1
        ≡ wrong_arguments command || not (is_local command) && wrong_configuration flags
  unfolding run_command
  run_command_misuse flags analyze_command =
      with_service_misuse (run_analyze world) (run_analyze_proper world) flags
  run_command_misuse flags resilience_command =
      with_service_misuse (run_resilience world) (run_resilience_proper world) flags
  run_command_misuse flags poc_command =
      with_service_misuse (run_poc world flags) (run_poc_proper world flags) flags
  run_command_misuse flags version_command = refl
  run_command_misuse flags (explain_command true args) = refl
  run_command_misuse flags (explain_command false []) = refl
  run_command_misuse flags (explain_command false (code ∷ [])) =
      with_service_misuse (run_explain world code) (run_explain_proper world code) flags
  run_command_misuse flags (explain_command false (code ∷ other ∷ args)) = ground arith

  is_two-exit_code : (exit : Exit) → is_two (exit_code exit) ≡ is_misuse exit
  unfolding exit_code
  is_two-exit_code (faulted e) = ground arith
  is_two-exit_code finished = refl
  is_two-exit_code watching = refl
  is_two-exit_code no_report = refl

  -- The process ends with the code 2 exactly if the arguments are read, and either `explain` is given without
  -- `--list` and not with one code, or the command needs a service and the configuration is read and
  -- has faults: whatever the collectors, the encoders and the writer do.
  pub execute_usage :
      (args : Result (RuntimeFlags × Command)) → is_two (execute world args).1 ≡ is_misused args
  unfolding execute
  execute_usage (err e) = refl
  execute_usage (ok (flags, command)) =
      is_two-exit_code (run_command world flags command).1 ∙ run_command_misuse flags command

  use_service_has_report :
      (run : Service F → Run) (service : Step (Service F))
      → ((svc : Service F) → is_proper (run svc).1 ≡ true)
      → reads_no_report (use_service run service).1 ≡ false
  use_service_has_report run (stop e) h = refl
  use_service_has_report run (went svc) h = proper_has_report (run svc).1 (h svc)

  -- No command goes on with the nil report of a watch, whatever the world gives: a watch that ends without an error
  -- has a report. Nothing is said of other panics.
  pub run_command_has_report :
      (flags : RuntimeFlags) (command : Command)
      → reads_no_report (run_command world flags command).1 ≡ false
  unfolding run_command with_service
  run_command_has_report flags analyze_command =
      use_service_has_report (run_analyze world) (build_service world flags)
        (run_analyze_proper world)
  run_command_has_report flags resilience_command =
      use_service_has_report (run_resilience world) (build_service world flags)
        (run_resilience_proper world)
  run_command_has_report flags poc_command =
      use_service_has_report (run_poc world flags) (build_service world flags)
        (run_poc_proper world flags)
  run_command_has_report flags version_command = refl
  run_command_has_report flags (explain_command true args) = refl
  run_command_has_report flags (explain_command false []) = refl
  run_command_has_report flags (explain_command false (code ∷ [])) =
      use_service_has_report (run_explain world code) (build_service world flags)
        (run_explain_proper world code)
  run_command_has_report flags (explain_command false (code ∷ other ∷ args)) = refl
