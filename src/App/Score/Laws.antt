-- ===== src/App/Score/Laws.antt =====
-- What the closed form says of the score.
use native.Mathlib.Nat.{le_refl, le_of_eq, mul-le-mul}
use mathlib.Core.List.Perm
use yb_doctor.Base.{
  ℕ, ◌*◌, ◌≤◌, ◌≡◌, ap, String, true, List, has, has-count, count, sum_by_mono, count-perm, Perm,
  pos, pos_part, arith, str_eq, ◌≤ℤ◌, if◌then◌else◌,
}
use yb_doctor.Domain.Ids.{FindingCode, code_compaction_pressure, code_disk_pressure}
use yb_doctor.Domain.Report.{Finding, RaftSummary}
use yb_doctor.Config.{Scoring}
use yb_doctor.App.Score.{score_report}
use yb_doctor.App.Score.Loop.{IsSane, IsSmall, worth}
use yb_doctor.App.Score.Closed.{codes_of, lost_points, repeated_worth, once, score_report_closed}

-- `raft'` and the codes `ds` report at least the trouble of `raft` and `cs`.
pub record IsWorse (raft raft' : RaftSummary) (cs ds : List FindingCode) : Type 0 where
  pub leaderless : raft.leaderless ≤ raft'.leaderless
  pub under_replicated : raft.under_replicated ≤ raft'.under_replicated
  pub slow_followers : raft.slow_followers ≤ raft'.slow_followers
  pub found : (c : FindingCode) → has c cs ≡ true → has c ds ≡ true
  pub compactions :
      count (λ c. str_eq c code_compaction_pressure) cs
      ≤ count (λ c. str_eq c code_compaction_pressure) ds
  pub disks :
      count (λ c. str_eq c code_disk_pressure) cs ≤ count (λ c. str_eq c code_disk_pressure) ds

mul_mono : {a b : ℕ} (w : ℕ) → a ≤ b → a * w ≤ b * w
mul_mono w h = mul-le-mul h (le_refl w)

module _ (sc : Scoring) (raft raft' : RaftSummary) (cs ds : List FindingCode) where
  repeated_worth_mono : IsWorse raft raft' cs ds → repeated_worth sc cs ≤ repeated_worth sc ds
  repeated_worth_mono w = omega (
    arith,
    mul_mono (pos_part sc.compaction_high) w.compactions,
    mul_mono (pos_part sc.disk_high) w.disks,
  )

  lost_points_mono : IsWorse raft raft' cs ds → lost_points sc raft cs ≤ lost_points sc raft' ds
  lost_points_mono w = ground (
    arith,
    mul_mono (pos_part sc.leaderless_tablet) w.leaderless,
    mul_mono (pos_part sc.under_replicated_tablet) w.under_replicated,
    mul_mono (pos_part sc.slow_follower) w.slow_followers,
    repeated_worth_mono w,
    sum_by_mono (λ c. if has c cs then worth sc c else 0) (λ c. if has c ds then worth sc c else 0)
        once (λ c. ground (arith, w.found c)),
  )

-- A universe with at least the trouble of another has no better score, with the same table of
-- weights that are not negative and below 2³¹, and counts below 2³¹; every such score lies between 0 and the start.
pub score_report_mono :
    (fs gs : List Finding) (raft raft' : RaftSummary) (sc : Scoring)
    → IsSmall raft
    → IsSmall raft'
    → IsSane sc
    → IsWorse raft raft' (codes_of fs) (codes_of gs)
    → (pos 0 ≤ℤ score_report gs raft' sc)
      × (score_report gs raft' sc ≤ℤ score_report fs raft sc)
      × (score_report fs raft sc ≤ℤ sc.start)
score_report_mono fs gs raft raft' sc small small' sane worse =
    let lost = lost_points_mono sc raft raft' (codes_of fs) (codes_of gs) worse in
    rw (score_report_closed fs raft sc small sane, score_report_closed gs raft' sc small' sane)
      (omega (arith, lost, sane.start.0))

codes-IsWorse :
    (raft : RaftSummary) (cs ds : List FindingCode) → Perm cs ds → IsWorse raft raft cs ds
codes-IsWorse raft cs ds p = record {
  leaderless = le_refl _;
  under_replicated = le_refl _;
  slow_followers = le_refl _;
  found = λ c h.
      ground (arith, has-count c cs, has-count c ds, count-perm (λ (j : String). str_eq j c) p);
  compactions = le_of_eq (count-perm _ p);
  disks = le_of_eq (count-perm _ p);
}

-- The score does not depend on the order of the findings, so not on the order in which the nodes
-- of the performance map are visited.
pub score_report-perm :
    (fs gs : List Finding) (raft : RaftSummary) (sc : Scoring)
    → IsSmall raft
    → IsSane sc
    → Perm fs gs
    → score_report fs raft sc ≡ score_report gs raft sc
score_report-perm fs gs raft sc small sane p =
    let q = Perm.map (λ (f : Finding). f.code) p in
    let there =
      lost_points_mono sc raft raft _ _ (codes-IsWorse raft (codes_of fs) (codes_of gs) q) in
    let back =
      lost_points_mono sc raft raft _ _
        (codes-IsWorse raft (codes_of gs) (codes_of fs) (Perm.symm q)) in
    rw (score_report_closed fs raft sc small sane, score_report_closed gs raft sc small sane)
      (ap pos (omega (arith, there, back)))
