-- ===== src/Cli/Render/Reports.antt =====
-- internal/adapter/inbound/cli/render/text.go: `Resilience`, `Explain` and `POC`.
use yb_doctor.Base.{
  ℕ, ◌+◌, String, List, [], ◌∷◌, length, ◌==◌, concat, show_ℕ, show_ℤ, to_upper, if◌then◌else◌,
}
use yb_doctor.Float.{Float64}
use yb_doctor.Domain.Ids.{is_fail, check_text}
use yb_doctor.Domain.Report.{
  AzBranch, RegionBranch, FailureSim, ResilienceReport, Explanation, PocCheck, PocReport,
}
use yb_doctor.Cli.Render.Numbers.{join, commas_64, bytes_human}
use yb_doctor.Cli.Render.Pieces.{
  Palette, heading, section, status_color, colored_status, line, each, when,
}

unfoldable pub names_of_zones : List AzBranch → List String
names_of_zones [] = []
names_of_zones (z ∷ zs) = z.name ∷ names_of_zones zs

unfoldable pub az_header : List AzBranch → String
unfolding names_of_zones
az_header zones = join "   |   " (names_of_zones zones)

unfoldable pub nodes_of_zones : List AzBranch → List String
nodes_of_zones [] = []
nodes_of_zones (z ∷ zs) =
    (if length z.nodes == 0 then "-" else join "," z.nodes) ∷ nodes_of_zones zs

unfoldable pub az_nodes : List AzBranch → String
unfolding nodes_of_zones
az_nodes zones = join "      " (nodes_of_zones zones)

unfoldable pub region_lines : RegionBranch → String
region_lines region = concat (
    line ("        " ∷ region.name ∷ [])
    ∷ (if length region.zones == 0
        then ""
        else concat (
            line ("       " ∷ az_header region.zones ∷ [])
            ∷ line ("        " ∷ az_nodes region.zones ∷ [])
            ∷ []))
    ∷ [])

unfoldable pub simulation_lines : Palette → FailureSim → String
simulation_lines c sim = concat (
    line
      ("\n" ∷ sim.name ∷ ":\n" ∷ status_color c sim.status ∷ check_text sim.status ∷ c.reset ∷ [])
    ∷ when (is_fail sim.status) (line (sim.reason ∷ []))
    ∷ [])

unfoldable pub plain_line : String → String
plain_line s = line (s ∷ [])

unfoldable pub bullet_line : String → String
bullet_line s = line ("• " ∷ s ∷ [])

-- The lines with their numbers, from 1.
unfoldable pub numbered_lines : ℕ → List String → String
numbered_lines i [] = ""
numbered_lines i (s ∷ ss) =
    concat (line (show_ℕ (i + 1) ∷ ". " ∷ s ∷ []) ∷ numbered_lines (i + 1) ss ∷ [])

unfoldable pub explain_text : Palette → Explanation → String
explain_text c e = concat (
    heading c (to_upper e.code)
    ∷ section c "WHAT"
    ∷ line ("\n" ∷ e.what ∷ [])
    ∷ section c "WHY IT MATTERS"
    ∷ line ("\n" ∷ e.why_it_matters ∷ [])
    ∷ section c "CURRENT CLUSTER"
    ∷ "\n"
    ∷ each plain_line e.current_cluster
    ∷ section c "POSSIBLE CAUSES"
    ∷ "\n"
    ∷ each bullet_line e.possible_causes
    ∷ section c "NEXT STEPS"
    ∷ "\n"
    ∷ numbered_lines 0 e.next_steps
    ∷ [])

unfoldable pub check_line : Palette → PocCheck → String
check_line c k = line ("[" ∷ colored_status c k.status ∷ "] " ∷ k.name ∷ [])

module _ {F : Type 0} where
  unfoldable pub resilience_text : Palette → ResilienceReport F → String
  resilience_text c r = concat (
      heading c "Topology"
      ∷ "\n"
      ∷ each region_lines r.topology_tree
      ∷ line ("\nRF=" ∷ show_ℤ r.snapshot.replication_factor ∷ [])
      ∷ heading c "Failure simulations"
      ∷ each (simulation_lines c) r.simulations
      ∷ line ("\nRPO:\n" ∷ r.rpo ∷ [])
      ∷ line ("\nRecommendation:\n" ∷ r.recommendation ∷ [])
      ∷ [])

module _ {F : Type 0} ⦃f : Float64 F⦄ where
  unfoldable pub poc_text : Palette → PocReport F → String
  poc_text c r = concat (
      heading c "YUGABYTEDB POC REPORT"
      ∷ section c "Workload"
      ∷ line ("Database size       " ∷ bytes_human F r.workload.database_bytes ∷ [])
      ∷ line ("TPS                 " ∷ commas_64 (f.to_ℤ r.workload.tps) ∷ [])
      ∷ line (
          "Read/write          "
          ∷ f.fixed 0 r.workload.read_pct
          ∷ "/"
          ∷ f.fixed 0 r.workload.write_pct
          ∷ [])
      ∷ line ("Connections         " ∷ show_ℤ r.workload.connections ∷ [])
      ∷ section c "Architecture"
      ∷ line ("Nodes               " ∷ show_ℕ r.nodes ∷ [])
      ∷ line ("Regions             " ∷ show_ℕ r.regions ∷ [])
      ∷ line ("AZs                 " ∷ show_ℕ r.azs ∷ [])
      ∷ line ("RF                  " ∷ show_ℤ r.rf ∷ [])
      ∷ section c "Validation"
      ∷ each (check_line c) r.checks
      ∷ section c "POC RESULT"
      ∷ line ("\n" ∷ r.result_line ∷ [])
      ∷ [])
