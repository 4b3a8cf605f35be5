-- ===== src/Cli/Service.antt =====
-- internal/adapter/inbound/cli/root.go: `buildService`, `newCollector` and the files of a command, with `New` of
-- internal/app/service.go. A logger has no part in any result.
use yb_doctor.Base.{
  String, Bool, true, false, not, Option, none, some, List, [], ◌∷◌, length, ◌==◌, concat, str_eq,
  if◌then◌else◌, Result, ok, err, and_then, ◌>>=◌,
}
use yb_doctor.Float.{Float64}
use yb_doctor.Config.{Config}
use yb_doctor.Config.Validate.{ConfigError, validate}
use yb_doctor.Domain.Cluster.{Snapshot}
use yb_doctor.Domain.Report.{HealthReport, PocCriteria, default_poc_criteria}
use yb_doctor.Yugabyte.Client.{Client, new_client}
use yb_doctor.Yugabyte.Queries.{catalog_of}
use yb_doctor.Yugabyte.Client.Collect.{collect}
use yb_doctor.Fixture.Plans.{new_fixture, collect_scenario}
use yb_doctor.Cli.Flags.{RuntimeFlags, load_config}
use yb_doctor.Cli.World.{World}

-- The error of a command: `errUsage` with what is wrong, an error of `New`, or another text.
pub data CliFault : Type 0 where
  bad_config : List ConfigError → CliFault
  bad_explain : CliFault
  bad_service : List ConfigError → CliFault
  failure : String → CliFault

-- `errors.Is(err, errUsage)`
abbrev pub is_usage : CliFault → Bool
is_usage (bad_config _) = true
is_usage bad_explain = true
is_usage (bad_service _) = false
is_usage (failure _) = false

-- A value, or the fault that ends the command.
pub data Step (A : Type 0) : Type 0 where
  went : A → Step A
  stop : CliFault → Step A

abbrev pub within : {A : Type 0} → String → Result A → Result A
within op r = and_then op r (λ a. a)

-- The collector: a scenario's path, or a client.
pub data Source (F : Type 0) : Type 0 where
  scenario_source : String → Source F
  cluster_source : Client F → Source F

pub record Service (F : Type 0) : Type 0 where
  pub cfg : Config F
  pub source : Source F

module _ {F : Type 0} ⦃f : Float64 F⦄ where
  -- `New`: it checks the configuration once more; the collector is never nil here.
  unfoldable pub new_service : Config F → Source F → Step (Service F)
  new_service cfg source =
      if length (validate cfg) == 0
      then went (record { cfg = cfg; source = source })
      else stop (bad_service (validate cfg))

module _ {F : Type 0} ⦃f : Float64 F⦄ (world : World F) where
  unfoldable pub new_collector : Config F → Result (Source F)
  new_collector cfg =
      if not (str_eq cfg.scenario "")
      then and_then "fixture" (new_fixture cfg.scenario) scenario_source
      else and_then "yugabyte client" (new_client world.sys.read_file world.append_certs cfg)
          cluster_source

  unfoldable pub checked_service : Config F → Step (Service F)
  unfolding new_service
  checked_service cfg =
      if length (validate cfg) == 0
      then elim (new_collector cfg) [
        | err e ↦ stop (failure e)
        | ok source ↦ new_service cfg source
      ]
      else stop (bad_config (validate cfg))

  unfoldable pub build_service : RuntimeFlags → Step (Service F)
  unfolding checked_service
  build_service flags = elim (load_config world.sys flags) [
    | err e ↦ stop (failure (concat ("load config: " ∷ e ∷ [])))
    | ok cfg ↦ checked_service cfg
  ]

  -- `Collect` of the collector.
  unfoldable pub collected : Service F → Result (Snapshot F)
  collected svc = elim svc.source [
    | scenario_source path ↦ collect_scenario world.disk world.context_error world.now path
    | cluster_source c ↦
        collect world.json world.http (catalog_of world.driver c) world.schedule world.now c
  ]

  unfoldable pub load_health_report : String → Result (HealthReport F)
  load_health_report path = do
    raw ← within "read diff file" (world.sys.read_file path)
    within "decode diff file" (world.decode_report raw)

  -- The error of the write, if there is one.
  unfoldable pub write_health_report : String → HealthReport F → Option String
  write_health_report path r = elim (world.encoder.indented r) [
    | err e ↦ some (concat ("encode report: " ∷ e ∷ []))
    | ok raw ↦ elim (world.write_file path raw) [
      | none ↦ none
      | some e ↦ some (concat ("write report: " ∷ e ∷ []))
    ]
  ]

  unfoldable pub load_criteria : String → Result (PocCriteria F)
  load_criteria path = do
    raw ← within "read criteria" (world.sys.read_file path)
    within "decode criteria" (world.decode_criteria raw)

  -- The criteria of `poc`: of the flag's file, else of the configuration's, else the defaults.
  unfoldable pub chosen_criteria : RuntimeFlags → Config F → Result (PocCriteria F)
  chosen_criteria flags cfg =
      let path = if str_eq flags.criteria "" then cfg.criteria_file else flags.criteria in
      if str_eq path "" then ok default_poc_criteria else load_criteria path
