-- ===== src/Fixture/Reported.antt =====
-- internal/adapter/outbound/fixture/collector.go with internal/app/service.go: what the report of a scenario says of
-- the faults of its plan.
use Prim.Native.Nat.{min}
use yb_doctor.Base.{
  Dict, get, IsDistinct, some, [], ◌∷◌, eq_iff, sym, inl, inr, Bool-cases, ℕ, ◌≤◌, Bool, false, ◌≡◌,
  refl, ◌∙◌, ap, ◌&&◌, any, length, ltb, pos_part, keys, has, str_eq, arith,
}
use yb_doctor.Float.{Float64}
use yb_doctor.Domain.Ids.{FindingCode, code_leaderless, code_under_replicated}
use yb_doctor.Domain.Cluster.{Snapshot}
use yb_doctor.Domain.Report.{TabletSummary, RaftSummary}
use yb_doctor.Config.{Config, Thresholds}
use yb_doctor.App.Findings.Codes.{reports, is_due, due}
use yb_doctor.App.Service.{analyze_snapshot}
use yb_doctor.App.Service.Reports.{analyze_snapshot_findings}
use yb_doctor.Fixture.Plans.{Plan, planned_counts, factor_of, expanded}
use yb_doctor.Fixture.Found.{expanded-leaderless}
use yb_doctor.Fixture.Exact.{expanded-under_replicated_exact}

some_min : (n m : ℕ) → ltb 0 (min n m) ≡ (ltb 0 n && ltb 0 m)
some_min n m = ground arith

is_due_absent :
    (c : FindingCode) (ds : Dict Bool) → has c (keys ds) ≡ false → any (is_due c) ds ≡ false
is_due_absent c [] h = refl
is_due_absent c ((k, b) ∷ ds) h = ground (arith, is_due_absent c ds)

-- Of tests under different codes, a code's own decides.
get-is_due :
    (c : FindingCode) (ds : Dict Bool) (b : Bool)
    → IsDistinct (keys ds)
    → get c ds ≡ some b
    → any (is_due c) ds ≡ b
unfolding get
get-is_due c [] b d h = cc
get-is_due c ((k, a) ∷ ds) b (n, d) h = elim (Bool-cases (str_eq k c)) [
  | inl e ↦
      let alone : any (is_due c) ds ≡ false =
        is_due_absent c ds (sym (ap (λ x. has x (keys ds)) ((eq_iff k c).0 e)) ∙ n) in
      let own : a ≡ b = ground arith in rw (e, alone, own) (ground arith)
  | inr e ↦ ground (arith, get-is_due c ds b d)
]

module _ {F : Type 0} ⦃f : Float64 F⦄ where
  due-IsDistinct :
      (s : Snapshot F) (sum : TabletSummary F) (raft : RaftSummary) (th : Thresholds F)
      → IsDistinct (keys (due s sum raft th))
  unfolding due
  due-IsDistinct s sum raft th = (
    refl,
    (
      refl,
      (refl, (refl, (refl, (refl, (refl, (refl, (refl, (refl, (refl, (refl, (refl, tt))))))))))),
    ),
  )

  due-leaderless :
      (s : Snapshot F) (sum : TabletSummary F) (raft : RaftSummary) (th : Thresholds F)
      → any (is_due code_leaderless) (due s sum raft th) ≡ ltb 0 raft.leaderless
  unfolding due get
  due-leaderless s sum raft th =
      get-is_due code_leaderless (due s sum raft th) _ (due-IsDistinct s sum raft th) refl

  due-under_replicated :
      (s : Snapshot F) (sum : TabletSummary F) (raft : RaftSummary) (th : Thresholds F)
      → any (is_due code_under_replicated) (due s sum raft th) ≡ ltb 0 raft.under_replicated
  unfolding due get
  due-under_replicated s sum raft th =
      get-is_due code_under_replicated (due s sum raft th) _ (due-IsDistinct s sum raft th) refl

  -- Of a scenario whose tablets are to have at least two replicas, and where at least as many servers have planned
  -- leaders, each with an id, the report lists leaderless tablets exactly if the plan asks for some and gives any
  -- tablet, and under-replicated tablets exactly if the plan asks for some of those and gives any tablet.
  pub expanded-analyze_snapshot :
      (cfg : Config F) (plan : Plan F)
      → 2 ≤ pos_part (factor_of plan)
      → pos_part (factor_of plan) ≤ length (planned_counts plan (factor_of plan)).0
      → has "" (keys (planned_counts plan (factor_of plan)).0) ≡ false
      → (reports code_leaderless (analyze_snapshot cfg (expanded plan)).findings
          ≡ ltb 0 (pos_part plan.leaderless) && ltb 0 (length (expanded plan).tablets))
        × (reports code_under_replicated (analyze_snapshot cfg (expanded plan)).findings
            ≡ ltb 0 (pos_part plan.under_replicated) && ltb 0 (length (expanded plan).tablets))
  expanded-analyze_snapshot cfg plan two enough named = (
    analyze_snapshot_findings cfg (expanded plan) code_leaderless
        ∙ due-leaderless (expanded plan) _ _ cfg.thresholds
        ∙ ap (ltb 0) (expanded-leaderless plan cfg.thresholds)
        ∙ some_min (pos_part plan.leaderless) (length (expanded plan).tablets),
    analyze_snapshot_findings cfg (expanded plan) code_under_replicated
        ∙ due-under_replicated (expanded plan) _ _ cfg.thresholds
        ∙ ap (ltb 0) (expanded-under_replicated_exact plan cfg.thresholds two enough named)
        ∙ some_min (pos_part plan.under_replicated) (length (expanded plan).tablets),
  )
