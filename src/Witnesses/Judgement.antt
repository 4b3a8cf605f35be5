-- ===== src/Witnesses/Judgement.antt =====
-- The score, the simulations, the acceptance, the differences and the watch, on the examples of
-- Witnesses/Data.
use yb_doctor.Base.{
  ℕ, String, Option, eqb_ℤ, if◌then◌else◌, ◌≤◌, true, ◌≡◌, refl, none, some, [], ◌∷◌, ◌↔◌, any, pos,
  ◌≤ℤ◌, arith,
}
use mathlib.Core.List.Perm
use yb_doctor.Float.{Fraction, fraction_float}
use yb_doctor.Domain.Ids.{
  check_warn, severity_high, severity_low, code_dead_tserver, code_disk_pressure, code_p99_latency,
}
use yb_doctor.Domain.Cluster.{replica_count, quorum_size}
use yb_doctor.Domain.Report.{HealthReport, default_poc_criteria}
use yb_doctor.Config.{default_scoring, defaults}
use yb_doctor.App.Score.{points, score_report}
use yb_doctor.App.Score.Loop.{IsSane, IsSmall}
use yb_doctor.App.Score.Closed.{once, score_report_closed}
use yb_doctor.App.Score.Laws.{score_report_mono, score_report-perm}
use yb_doctor.App.Resilience.{
  node_sim, loses_quorum, remains, eval_failure, simulations, simulate_resilience, kind_fails,
}
use yb_doctor.App.Resilience.Quorum.{eval_failure_status, eval_failure_mono}
use yb_doctor.App.Resilience.Cover.{simulations_cover}
use yb_doctor.App.Poc.{build_poc}
use yb_doctor.App.Poc.Verdict.{build_poc_verdict}
use yb_doctor.App.Diff.{finding_delta, leader_deltas}
use yb_doctor.App.Diff.Delta.{times, finding_delta_exact}
use yb_doctor.App.Diff.Leaders.{is_change, leader_deltas_exact}
use yb_doctor.App.Service.{analyze_snapshot, sort_findings}
use yb_doctor.App.Findings.Order.{IsGraded, sort_findings_lem}
use yb_doctor.App.Watch.{emit_failed, returned, sampled, tick, watch_analyze}
use yb_doctor.App.Watch.Samples.{watch_analyze_outcome}
use yb_doctor.Witnesses.Data.{town, hamlet, note, row, raft_counts}

pub defaults-IsSane : IsSane default_scoring
unfolding default_scoring
defaults-IsSane = record {
  start = (refl, omega arith);
  leaderless_tablet = (refl, omega arith);
  leaderless_cap = (refl, omega arith);
  under_replicated_tablet = (refl, omega arith);
  under_replicated_cap = (refl, omega arith);
  dead_tserver = (refl, omega arith);
  dead_master = (refl, omega arith);
  leader_imbalance = (refl, omega arith);
  tablet_imbalance = (refl, omega arith);
  sst_imbalance = (refl, omega arith);
  compaction_high = (refl, omega arith);
  slow_follower = (refl, omega arith);
  slow_follower_cap = (refl, omega arith);
  disk_high = (refl, omega arith);
  p99_warn = (refl, omega arith);
}

calm-IsSmall : IsSmall (raft_counts 0 0)
calm-IsSmall = record {
  leaderless = omega arith;
  under_replicated = omega arith;
  slow_followers = omega arith;
}

score_report_closed_example :
    score_report
      (note severity_high code_dead_tserver ∷ note severity_high code_dead_tserver ∷ [])
      (raft_counts 0 0)
      default_scoring
    ≡ pos 80
unfolding default_scoring once points
score_report_closed_example =
    score_report_closed
      (note severity_high code_dead_tserver ∷ note severity_high code_dead_tserver ∷ [])
      (raft_counts 0 0) default_scoring calm-IsSmall defaults-IsSane

sort_findings_lem_example :
    IsGraded (sort_findings (note severity_low "b" ∷ note severity_high "a" ∷ []))
sort_findings_lem_example =
    (sort_findings_lem (note severity_low "b" ∷ note severity_high "a" ∷ [])).1

troubled-IsSmall : IsSmall (raft_counts 1 2)
troubled-IsSmall = record {
  leaderless = omega arith;
  under_replicated = omega arith;
  slow_followers = omega arith;
}

score_report_mono_example :
    score_report (note severity_high code_dead_tserver ∷ []) (raft_counts 1 2) default_scoring
    ≤ℤ score_report [] (raft_counts 0 0) default_scoring
score_report_mono_example =
    (score_report_mono [] (note severity_high code_dead_tserver ∷ []) (raft_counts 0 0)
      (raft_counts 1 2) default_scoring calm-IsSmall troubled-IsSmall defaults-IsSane
      (record {
        leaderless = omega arith;
        under_replicated = omega arith;
        slow_followers = omega arith;
        found = λ c h. cc;
        compactions = omega arith;
        disks = omega arith;
      })).1

score_report-perm_example :
    score_report
      (note severity_high code_disk_pressure ∷ note severity_low code_p99_latency ∷ [])
      (raft_counts 0 0)
      default_scoring
    ≡ score_report
        (note severity_low code_p99_latency ∷ note severity_high code_disk_pressure ∷ [])
        (raft_counts 0 0)
        default_scoring
score_report-perm_example =
    score_report-perm
      (note severity_high code_disk_pressure ∷ note severity_low code_p99_latency ∷ [])
      (note severity_low code_p99_latency ∷ note severity_high code_disk_pressure ∷ [])
      (raft_counts 0 0) default_scoring calm-IsSmall defaults-IsSane (Perm.swap _ _ [])

eval_failure_status_example :
    ((eval_failure hamlet "n1 failure" "node" ("n1" ∷ []) ("n1" ∷ [])).status ≡ check_warn)
    ↔ (hamlet.tablets ≡ [])
eval_failure_status_example =
    (eval_failure_status hamlet "n1 failure" "node" ("n1" ∷ []) ("n1" ∷ [])).1

eval_failure_mono_example :
    (eval_failure town "a" "node" [] []).tablets_failed
    ≤ (eval_failure town "b" "az" [] ("n1" ∷ [])).tablets_failed
eval_failure_mono_example =
    (eval_failure_mono town "a" "node" "b" "az" [] [] [] ("n1" ∷ []) (λ i h. cc)).0

hamlet_fails : kind_fails "node" (simulations hamlet) ≡ true
unfolding simulations node_sim eval_failure loses_quorum replica_count remains quorum_size
hamlet_fails = refl

simulations_cover_example :
    (kind_fails "az" (simulations hamlet) ≡ true)
    × (kind_fails "region" (simulations hamlet) ≡ true)
simulations_cover_example = simulations_cover hamlet hamlet_fails

abbrev report : HealthReport Fraction
report = analyze_snapshot defaults town

build_poc_verdict_example :
    (build_poc report (simulate_resilience town) default_poc_criteria).passed
    ≤ (build_poc report (simulate_resilience town) default_poc_criteria).total
build_poc_verdict_example =
    (build_poc_verdict report (simulate_resilience town) default_poc_criteria).0

finding_delta_exact_example :
    times "b"
      (finding_delta
        (note severity_low "a" ∷ [])
        (note severity_low "b" ∷ note severity_low "b" ∷ [])).0
    ≡ 1
finding_delta_exact_example =
    (finding_delta_exact (note severity_low "a" ∷ [])
        (note severity_low "b" ∷ note severity_low "b" ∷ [])).0
      "b"

leader_deltas_exact_example :
    any (is_change "n2" 0 4) (leader_deltas (row "n1" 3 ∷ []) (row "n1" 3 ∷ row "n2" 4 ∷ [])) ≡ true
leader_deltas_exact_example =
    leader_deltas_exact "n2" 0 4 (row "n1" 3 ∷ []) (row "n1" 3 ∷ row "n2" 4 ∷ [])

abbrev scored : ℕ → HealthReport Fraction
scored n = record report { score = pos n }

-- The third sample is not emitted.
abbrev refuse_better : HealthReport Fraction → Option String
refuse_better r = if eqb_ℤ r.score (pos 77) then some "closed pipe" else none

watch_analyze_outcome_example :
    watch_analyze
      (pos 3)
      (some refuse_better)
      (sampled (scored 1))
      (tick (sampled (scored 1)) ∷ tick (sampled (scored 77)) ∷ [])
    ≡ returned
        (some (scored 77))
        (some (emit_failed "closed pipe"))
        (scored 1 ∷ scored 1 ∷ scored 77 ∷ [])
watch_analyze_outcome_example =
    (watch_analyze_outcome (pos 3) refuse_better (scored 1) (scored 1 ∷ [])
      (tick (sampled (scored 77))) [] "e" refl (refl, (refl, tt))).1
