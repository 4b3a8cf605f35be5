-- ===== src/App/Score/Closed.antt =====
-- The score in closed form: neither the order of the findings nor repeated codes matter.
use yb_doctor.Base.{
  ℕ, ◌+◌, ◌-◌, ◌*◌, ◌≡◌, refl, ◌∙◌, ap, String, true, false, ◌&&◌, not, List, [], ◌∷◌, map, has,
  count, sum_by, sum_by_congr, IsDistinct, pos, pos_part, arith, str_eq, eq_iff, str_eq_comm,
  on_text, eq_refl, Bool-cases, inl, inr, if◌then◌else◌,
}
use yb_doctor.Domain.Ids.{
  FindingCode, code_dead_tserver, code_master_quorum, code_leader_imbalance, code_tablet_imbalance,
  code_sst_imbalance, code_compaction_pressure, code_disk_pressure, code_p99_latency,
}
use yb_doctor.Domain.Report.{Finding, RaftSummary}
use yb_doctor.Config.{Scoring}
use yb_doctor.App.Score.{score_report, points, repeats}
use yb_doctor.App.Score.Loop.{
  IsSane, IsSmall, worth, charge, capped, slow_points, deduct_raft_lem, deduct_findings_lem,
}

-- The codes that deduct once, however many findings carry them.
unfoldable pub once : List FindingCode
once =
    code_dead_tserver ∷ code_master_quorum ∷ code_leader_imbalance ∷ code_tablet_imbalance
    ∷ code_sst_imbalance ∷ code_p99_latency ∷ []

-- A code that is not repeated deducts if it occurs and was not seen.
abbrev once_worth : Scoring → List FindingCode → List String → FindingCode → ℕ
once_worth sc cs seen c = if has c cs && not (has c seen) then worth sc c else 0

sum_by_shift :
    (f g : String → ℕ) (k : String) (v : ℕ) (cs : List String)
    → IsDistinct cs
    → ((c : String) → str_eq c k ≡ false → f c ≡ g c)
    → f k ≡ g k + v
    → sum_by f cs ≡ sum_by g cs + (if has k cs then v else 0)
sum_by_shift f g k v [] d off at = omega arith
sum_by_shift f g k v (c ∷ cs) (d, ds) off at =
    ground (arith, off c, eq_iff c k, sum_by_shift f g k v cs ds off at)

-- What the two repeated codes take off, and what the others do.
abbrev pub repeated_worth : Scoring → List FindingCode → ℕ
repeated_worth sc cs =
    count (λ c. str_eq c code_compaction_pressure) cs * pos_part sc.compaction_high
    + count (λ c. str_eq c code_disk_pressure) cs * pos_part sc.disk_high

abbrev WorthCase : Scoring → FindingCode → Type 0
WorthCase sc c =
    worth sc c
    ≡ (if has c once then worth sc c else 0)
      + (if str_eq c code_compaction_pressure then pos_part sc.compaction_high else 0)
      + (if str_eq c code_disk_pressure then pos_part sc.disk_high else 0)

worth_cases : (sc : Scoring) (c : FindingCode) → WorthCase sc c
unfolding points once
worth_cases sc c =
    let P : FindingCode → Type 0 = WorthCase sc in
    on_text P code_dead_tserver (omega arith) c λ a.
      on_text P code_master_quorum (omega arith) c λ b.
        on_text P code_leader_imbalance (omega arith) c λ d.
          on_text P code_tablet_imbalance (omega arith) c λ e.
            on_text P code_sst_imbalance (omega arith) c λ f.
              on_text P code_compaction_pressure (omega arith) c λ g.
                on_text P code_disk_pressure (omega arith) c λ h.
                  on_text P code_p99_latency (omega arith) c λ i. ground (
                    arith,
                    str_eq_comm c code_dead_tserver,
                    str_eq_comm c code_master_quorum,
                    str_eq_comm c code_leader_imbalance,
                    str_eq_comm c code_tablet_imbalance,
                    str_eq_comm c code_sst_imbalance,
                    str_eq_comm c code_p99_latency,
                  )

repeated_worth-cons :
    (sc : Scoring) (c : FindingCode) (cs : List FindingCode)
    → repeated_worth sc (c ∷ cs)
      ≡ repeated_worth sc cs
        + (if str_eq c code_compaction_pressure then pos_part sc.compaction_high else 0)
        + (if str_eq c code_disk_pressure then pos_part sc.disk_high else 0)
repeated_worth-cons sc c cs = ground arith

once-IsDistinct : IsDistinct once
unfolding once
once-IsDistinct = (refl, (refl, (refl, (refl, (refl, (refl, tt))))))

-- A repeated code is none of the others.
not-has-once : (c : FindingCode) → repeats c ≡ true → has c once ≡ false
unfolding once
not-has-once c =
    let P : FindingCode → Type 0 = λ c. repeats c ≡ true → has c once ≡ false in
    on_text P code_compaction_pressure (λ _. refl) c
      λ a. on_text P code_disk_pressure (λ _. refl) c λ b. λ r. ground arith

-- Seeing a code moves its points out of the sum.
once_shift :
    (sc : Scoring) (c : FindingCode) (cs : List FindingCode) (seen : List String)
    → sum_by (once_worth sc (c ∷ cs) seen) once
      ≡ sum_by (once_worth sc cs (c ∷ seen)) once
        + (if has c once then if has c seen then 0 else worth sc c else 0)
once_shift sc c cs seen =
    sum_by_shift (once_worth sc (c ∷ cs) seen) (once_worth sc cs (c ∷ seen)) c
      (if has c seen then 0 else worth sc c) once once-IsDistinct
      (λ k off. ground (arith, str_eq_comm c k)) (ground (arith, eq_refl c))

-- A code that was seen adds nothing.
once_skip :
    (sc : Scoring) (c : FindingCode) (cs : List FindingCode) (seen : List String)
    → has c seen ≡ true
    → sum_by (once_worth sc (c ∷ cs) seen) once ≡ sum_by (once_worth sc cs seen) once
once_skip sc c cs seen h =
    sum_by_shift (once_worth sc (c ∷ cs) seen) (once_worth sc cs seen) c 0 once once-IsDistinct
      (λ k off. ground (arith, str_eq_comm c k)) (ground arith)
    ∙ ground arith

once_nil : (sc : Scoring) (seen : List String) → sum_by (once_worth sc [] seen) once ≡ 0
unfolding once
once_nil sc seen = refl

charge_closed :
    (sc : Scoring) (cs : List FindingCode) (seen : List String)
    → charge sc cs seen ≡ sum_by (once_worth sc cs seen) once + repeated_worth sc cs
charge_closed sc [] seen = omega (arith, once_nil sc seen)
charge_closed sc (c ∷ cs) seen = elim (Bool-cases (has c seen && not (repeats c))) [
  | inl e ↦ rw e (
      ground (arith, once_skip sc c cs seen, charge_closed sc cs seen, repeated_worth-cons sc c cs))
  | inr e ↦ rw e (
      ground (
        arith,
        once_shift sc c cs seen,
        charge_closed sc cs (c ∷ seen),
        repeated_worth-cons sc c cs,
        worth_cases sc c,
        not-has-once c,
      ))
]

-- What a report loses: the capped counts, each code of `once` that occurs, and each repeated code
-- as often as it occurs.
abbrev pub lost_points : Scoring → RaftSummary → List FindingCode → ℕ
lost_points sc raft cs =
    capped raft.leaderless sc.leaderless_tablet sc.leaderless_cap
    + capped raft.under_replicated sc.under_replicated_tablet sc.under_replicated_cap
    + slow_points raft.slow_followers sc.slow_follower sc.slow_follower_cap
    + sum_by (λ c. if has c cs then worth sc c else 0) once
    + repeated_worth sc cs

abbrev pub codes_of : List Finding → List FindingCode
codes_of = map (λ f. f.code)

once_unseen :
    (sc : Scoring) (cs : List FindingCode)
    → sum_by (once_worth sc cs []) once ≡ sum_by (λ c. if has c cs then worth sc c else 0) once
once_unseen sc cs = sum_by_congr _ _ once (λ c. ground arith)

-- For weights that are not negative and below 2³¹, and counts below 2³¹, the score is the start less
-- the lost points, and 0 where more is lost. The lost points are the weight of each leaderless and each
-- under-replicated tablet and each slow follower, up to the caps; the weight of each code found, once; and
-- for compaction and disk pressure the weight of each finding.
pub score_report_closed :
    (fs : List Finding) (raft : RaftSummary) (sc : Scoring)
    → IsSmall raft
    → IsSane sc
    → score_report fs raft sc ≡ pos (pos_part sc.start - lost_points sc raft (codes_of fs))
unfolding score_report
score_report_closed fs raft sc small sane = rw (deduct_raft_lem raft sc small sane) (
    deduct_findings_lem sc fs [] _ (omega (arith, sane.start.1)) sane
    ∙ ap pos (omega (arith, charge_closed sc (codes_of fs) [], once_unseen sc (codes_of fs))))
