-- ===== src/Cli/World.antt =====
-- internal/adapter/inbound/cli/root.go: what the process gives to a command. Each is a parameter: the sources of
-- the configuration, the disk of the scenarios, the network, the SQL driver, the encoders and decoders
-- of JSON, the writer, and what the clock and the context do to a watch.
use yb_doctor.Base.{String, Bool, Option, List, ℤ, Result}
use yb_doctor.Domain.Cluster.{Snapshot}
use yb_doctor.Domain.Report.{
  HealthReport, HealthDiff, ResilienceReport, Explanation, PocCriteria, PocReport,
}
use yb_doctor.App.Watch.{Reason}
use yb_doctor.Yugabyte.Bodies.{Json}
use yb_doctor.Yugabyte.Queries.{Driver}
use yb_doctor.Yugabyte.Client.{Http}
use yb_doctor.Yugabyte.Client.Collect.{Schedule}
use yb_doctor.Fixture.Plans.{Disk}
use yb_doctor.Cli.Flags.{System}

-- One event of a watch after its first sample: a tick, at which the collector gives a snapshot or an error,
-- or an error of the context, and the end of the context.
pub data Beat (F : Type 0) : Type 0 where
  beat : Result (Snapshot F) → Beat F
  interrupted : String → Beat F
  ended : Reason → Beat F

-- `json.MarshalIndent` and the encoder of the pages.
pub record Encoder (F : Type 0) : Type 0 where
  pub health : HealthReport F → Result String
  pub indented : HealthReport F → Result String
  pub diff : HealthDiff F → Result String
  pub resilience : ResilienceReport F → Result String
  pub explanation : Explanation → Result String
  pub poc : PocReport F → Result String

pub record World (F : Type 0) : Type 0 where
  pub sys : System
  pub version : String
  pub disk : Disk F
  pub context_error : Option String
  pub now : ℤ
  pub append_certs : String → Bool
  pub json : Json F
  pub http : Http
  pub driver : Driver F
  pub schedule : Schedule F
  pub beats : List (Beat F)
  pub quote : String → String
  pub encoder : Encoder F
  pub decode_report : String → Result (HealthReport F)
  pub decode_criteria : String → Result (PocCriteria F)
  -- The error of a write of the text to the standard output, and to the file.
  pub write : String → Option String
  pub write_file : String → String → Option String
