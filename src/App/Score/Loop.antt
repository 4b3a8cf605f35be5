-- ===== src/App/Score/Loop.antt =====
-- The arithmetic of the score, without wrapping: what each deduction takes off.
use Prim.Native.Nat.{min}
use native.Mathlib.Nat.{mul-le-mul}
use yb_doctor.Base.{
  ℕ, ◌+◌, ◌-◌, ◌*◌, ◌≤◌, ◌<◌, ◌≡◌, ◌&&◌, not, Option, none, some, List, [], ◌∷◌, has, map, String,
  ℤ, pos, negsuc, pos_part, neg_part, ◌-ℤ◌, ◌*ℤ◌, wrap_64, wrap_64-eq_self, ltb, two_63, arith,
  if◌then◌else◌,
}
use yb_doctor.Domain.Ids.{FindingCode}
use yb_doctor.Domain.Report.{Finding, RaftSummary}
use yb_doctor.Config.{Scoring}
use yb_doctor.App.Score.{
  deduct, cap_at, cap_positive, points, repeats, deduct_points, deduct_findings, deduct_raft,
}

abbrev pub two_31 : ℕ
two_31 = 2_147_483_648

-- A weight of the table: not negative, and below 2³¹.
abbrev pub IsWeight : ℤ → Type 0
IsWeight w = (neg_part w ≡ 0) × (pos_part w < two_31)

pub record IsSane (sc : Scoring) : Type 0 where
  pub start : IsWeight sc.start
  pub leaderless_tablet : IsWeight sc.leaderless_tablet
  pub leaderless_cap : IsWeight sc.leaderless_cap
  pub under_replicated_tablet : IsWeight sc.under_replicated_tablet
  pub under_replicated_cap : IsWeight sc.under_replicated_cap
  pub dead_tserver : IsWeight sc.dead_tserver
  pub dead_master : IsWeight sc.dead_master
  pub leader_imbalance : IsWeight sc.leader_imbalance
  pub tablet_imbalance : IsWeight sc.tablet_imbalance
  pub sst_imbalance : IsWeight sc.sst_imbalance
  pub compaction_high : IsWeight sc.compaction_high
  pub slow_follower : IsWeight sc.slow_follower
  pub slow_follower_cap : IsWeight sc.slow_follower_cap
  pub disk_high : IsWeight sc.disk_high
  pub p99_warn : IsWeight sc.p99_warn

-- The counts of a universe are far below 2³¹.
pub record IsSmall (raft : RaftSummary) : Type 0 where
  pub leaderless : raft.leaderless < two_31
  pub under_replicated : raft.under_replicated < two_31
  pub slow_followers : raft.slow_followers < two_31

-- The points that one finding's code is worth.
abbrev pub worth : Scoring → FindingCode → ℕ
worth sc code = elim (points sc code) [ none ↦ 0 | some n ↦ pos_part n ]

pub deduct_lem : (s n : ℕ) → s < two_31 → n < two_63 → deduct (pos s) (pos n) ≡ pos (s - n)
unfolding deduct ◌-ℤ◌
deduct_lem s n h k = rw (wrap_64-eq_self (pos s -ℤ pos n) (ground arith)) (ground arith)

pub of_weight : (w : ℤ) → IsWeight w → w ≡ pos (pos_part w)
of_weight w h = ground arith

product_exact : (c n : ℕ) → pos c *ℤ pos n ≡ pos (c * n)
unfolding ◌*ℤ◌
product_exact c n = ground arith

product_bound : (c : ℕ) (w : ℤ) → c < two_31 → IsWeight w → c * pos_part w < two_63
product_bound c w h k =
    let bound : c * pos_part w ≤ two_31 * two_31 =
      mul-le-mul {n₂ = two_31} {m₂ = two_31} (omega arith) (omega arith) in
    omega arith

pub product :
    (c : ℕ) (w : ℤ) → c < two_31 → IsWeight w → wrap_64 (pos c *ℤ w) ≡ pos (c * pos_part w)
product c (negsuc n) h k = absurd (omega arith)
product c (pos n) h k =
    let bound = product_bound c (pos n) h k in
    rw (product_exact c n) (wrap_64-eq_self (pos (c * n)) (omega arith))

-- The capped number of points.
abbrev pub capped : ℕ → ℤ → ℤ → ℕ
capped c w cap = min (c * pos_part w) (pos_part cap)

-- The slow followers are capped only by a positive cap.
abbrev pub slow_points : ℕ → ℤ → ℤ → ℕ
slow_points c w cap = if ltb 0 (pos_part cap) then capped c w cap else c * pos_part w

cap_at_lem :
    (p : ℕ) (cap : ℤ) → p < two_63 → IsWeight cap → cap_at (pos p) cap ≡ pos (min p (pos_part cap))
unfolding cap_at
cap_at_lem p cap h l = ground arith

cap_positive_lem :
    (p : ℕ) (cap : ℤ)
    → p < two_63
    → IsWeight cap
    → cap_positive (pos p) cap ≡ pos (if ltb 0 (pos_part cap) then min p (pos_part cap) else p)
unfolding cap_positive
cap_positive_lem p cap h l = ground arith

module _ (c : ℕ) (w cap : ℤ) (h : c < two_31) (k : IsWeight w) (l : IsWeight cap) where
  cap_product : cap_at (wrap_64 (pos c *ℤ w)) cap ≡ pos (capped c w cap)
  cap_product = rw (product c w h k) (cap_at_lem (c * pos_part w) cap (product_bound c w h k) l)

  slow_product : cap_positive (wrap_64 (pos c *ℤ w)) cap ≡ pos (slow_points c w cap)
  slow_product =
      rw (product c w h k) (cap_positive_lem (c * pos_part w) cap (product_bound c w h k) l)

  capped_bound : capped c w cap < two_63
  capped_bound = omega (arith, product_bound c w h k)

  slow_bound : slow_points c w cap < two_63
  slow_bound = ground (arith, product_bound c w h k)

-- The three counted deductions take off their sum.
pub deduct_raft_lem :
    (raft : RaftSummary) (sc : Scoring)
    → IsSmall raft
    → IsSane sc
    → deduct_raft raft sc sc.start
      ≡ pos (
          pos_part sc.start
          - capped raft.leaderless sc.leaderless_tablet sc.leaderless_cap
          - capped raft.under_replicated sc.under_replicated_tablet sc.under_replicated_cap
          - slow_points raft.slow_followers sc.slow_follower sc.slow_follower_cap)
unfolding deduct_raft
deduct_raft_lem raft sc small sane =
    let a = capped raft.leaderless sc.leaderless_tablet sc.leaderless_cap in
    let b = capped raft.under_replicated sc.under_replicated_tablet sc.under_replicated_cap in
    let c = slow_points raft.slow_followers sc.slow_follower sc.slow_follower_cap in
    let s = pos_part sc.start in
    rw (
      cap_product _ _ _ small.leaderless sane.leaderless_tablet sane.leaderless_cap,
      cap_product _ _ _ small.under_replicated sane.under_replicated_tablet
          sane.under_replicated_cap,
      slow_product _ _ _ small.slow_followers sane.slow_follower sane.slow_follower_cap,
      of_weight sc.start sane.start,
      deduct_lem s a sane.start.1
          (capped_bound _ _ _ small.leaderless sane.leaderless_tablet sane.leaderless_cap),
      deduct_lem (s - a) b (omega arith) (
          capped_bound _ _ _ small.under_replicated sane.under_replicated_tablet
            sane.under_replicated_cap),
      deduct_lem (s - a - b) c (omega arith)
          (slow_bound _ _ _ small.slow_followers sane.slow_follower sane.slow_follower_cap),
    )

-- The points that the loop takes off: those of each code that it does not skip.
abbrev pub charge : Scoring → List FindingCode → List String → ℕ
charge sc [] seen = 0
charge sc (c ∷ cs) seen =
    let skip = has c seen && not (repeats c) in
    (if skip then 0 else worth sc c) + charge sc cs (if skip then seen else c ∷ seen)

-- Points, if there are any, are a weight.
abbrev IsWeight? : Option ℤ → Type 0
IsWeight? none = Unit
IsWeight? (some n) = IsWeight n

points-IsWeight : (sc : Scoring) (c : FindingCode) → IsSane sc → IsWeight? (points sc c)
unfolding points
points-IsWeight sc c sane = ground arith

deduct_points_lem :
    (s : ℕ) (p : Option ℤ)
    → s < two_31
    → IsWeight? p
    → deduct_points (pos s) p ≡ pos (s - elim p [ none ↦ 0 | some n ↦ pos_part n ])
unfolding deduct_points
deduct_points_lem s none h k = ground arith
deduct_points_lem s (some n) h k = rw (of_weight n k) (deduct_lem s (pos_part n) h (omega arith))

pub deduct_findings_lem :
    (sc : Scoring) (fs : List Finding) (seen : List String) (s : ℕ)
    → s < two_31
    → IsSane sc
    → deduct_findings sc fs seen (pos s) ≡ pos (s - charge sc (map (λ f. f.code) fs) seen)
unfolding deduct_findings
deduct_findings_lem sc [] seen s h sane = ground arith
deduct_findings_lem sc (f ∷ fs) seen s h sane = ground (
  arith,
  deduct_points_lem s (points sc f.code) h (points-IsWeight sc f.code sane),
  deduct_findings_lem sc fs seen s,
  deduct_findings_lem sc fs (f.code ∷ seen) (s - worth sc f.code),
)
