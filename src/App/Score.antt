-- ===== src/App/Score.antt =====
-- internal/app/score.go. `int` arithmetic wraps at 64 bits.
pub mod Loop
pub mod Closed
pub mod Laws
use yb_doctor.Base.{
  ℕ, String, Bool, true, false, ◌&&◌, not, Option, none, some, List, [], ◌∷◌, has, ℤ, pos, ◌-ℤ◌,
  ◌*ℤ◌, wrap_64, ltb_ℤ, str_eq, if◌then◌else◌,
}
use yb_doctor.Domain.Ids.{
  FindingCode, code_dead_tserver, code_master_quorum, code_leader_imbalance, code_tablet_imbalance,
  code_sst_imbalance, code_compaction_pressure, code_disk_pressure, code_p99_latency,
}
use yb_doctor.Domain.Report.{Finding, RaftSummary}
use yb_doctor.Config.{Scoring}

-- The closure `deduct`, with the score that it captures.
unfoldable pub deduct : ℤ → ℤ → ℤ
deduct score n = let left = wrap_64 (score -ℤ n) in if ltb_ℤ left (pos 0) then pos 0 else left

-- `if pts > cap { pts = cap }`
unfoldable pub cap_at : ℤ → ℤ → ℤ
cap_at pts cap = if ltb_ℤ cap pts then cap else pts

-- `if cap > 0 && pts > cap { pts = cap }`
unfoldable pub cap_positive : ℤ → ℤ → ℤ
cap_positive pts cap = if ltb_ℤ (pos 0) cap && ltb_ℤ cap pts then cap else pts

-- The `switch` on a finding's code: the points that it deducts, if any.
unfoldable pub points : Scoring → FindingCode → Option ℤ
points sc code =
    if str_eq code code_dead_tserver
    then some sc.dead_tserver
    else if str_eq code code_master_quorum
    then some sc.dead_master
    else if str_eq code code_leader_imbalance
    then some sc.leader_imbalance
    else if str_eq code code_tablet_imbalance
    then some sc.tablet_imbalance
    else if str_eq code code_sst_imbalance
    then some sc.sst_imbalance
    else if str_eq code code_compaction_pressure
    then some sc.compaction_high
    else if str_eq code code_disk_pressure
    then some sc.disk_high
    else if str_eq code code_p99_latency
    then some sc.p99_warn
    else none

-- The codes that count each time: one finding for each node.
abbrev pub repeats : FindingCode → Bool
repeats code =
    not (not (str_eq code code_compaction_pressure) && not (str_eq code code_disk_pressure))

unfoldable pub deduct_points : ℤ → Option ℤ → ℤ
deduct_points score none = score
deduct_points score (some n) = deduct score n

-- The loop over the findings, with the set of the codes seen.
unfoldable pub deduct_findings : Scoring → List Finding → List String → ℤ → ℤ
deduct_findings sc [] seen score = score
deduct_findings sc (f ∷ fs) seen score =
    let skip = has f.code seen && not (repeats f.code) in
    deduct_findings sc fs (if skip then seen else f.code ∷ seen)
      (if skip then score else deduct_points score (points sc f.code))

-- The three counted deductions, in the order of the code.
unfoldable pub deduct_raft : RaftSummary → Scoring → ℤ → ℤ
deduct_raft raft sc score =
    let leaderless = wrap_64 (pos raft.leaderless *ℤ sc.leaderless_tablet) in
    let under = wrap_64 (pos raft.under_replicated *ℤ sc.under_replicated_tablet) in
    let slow = wrap_64 (pos raft.slow_followers *ℤ sc.slow_follower) in
    let score₁ = deduct score (cap_at leaderless sc.leaderless_cap) in
    let score₂ = deduct score₁ (cap_at under sc.under_replicated_cap) in
    deduct score₂ (cap_positive slow sc.slow_follower_cap)

unfoldable pub score_report : List Finding → RaftSummary → Scoring → ℤ
score_report findings raft sc = deduct_findings sc findings [] (deduct_raft raft sc sc.start)
