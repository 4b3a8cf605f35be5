-- ===== src/App/Poc/Verdict.antt =====
-- internal/app/poc.go: the verdict of `buildPOC`.
use yb_doctor.Base.{
  pos, leb_ℤ, ◌==◌, ◌≤◌, String, Bool, true, false, ◌≡◌, refl, ◌∙◌, ◌&&◌, ◌||◌, not, List, [], ◌∷◌,
  ◌++◌, any, count, count-le-length, length, str_eq, Bool-cases, inl, inr, arith,
}
use yb_doctor.Float.{Float64, nought, gt, ge}
use yb_doctor.Domain.Ids.{is_pass, is_fail}
use yb_doctor.Domain.Report.{FailureSim, ResilienceReport, HealthReport, PocCriteria, PocCheck}
use yb_doctor.App.Poc.{
  scan_kind, sim_kind_passed, build_poc, poc_checks, failure_checks, p99_checks, tps_checks,
  status_check, named_criteria,
}

-- A simulation of the kind that fails.
abbrev pub fails_kind : String → FailureSim → Bool
fails_kind kind s = str_eq s.kind kind && is_fail s.status

scan_kind_lem :
    (kind : String) (sims : List FailureSim) (seen : Bool)
    → (scan_kind kind sims seen).0
      ≡ ((seen || any (λ s. str_eq s.kind kind) sims) && not (any (fails_kind kind) sims))
unfolding scan_kind
scan_kind_lem kind [] true = refl
scan_kind_lem kind [] false = refl
scan_kind_lem kind (s ∷ sims) seen = elim (Bool-cases (str_eq s.kind kind)) [
  | inl e ↦ rw e (ground (arith, scan_kind_lem kind sims (seen || true)))
  | inr e ↦ rw e (ground (arith, scan_kind_lem kind sims (seen || false)))
]

-- A kind of failure passes exactly if some failure of the kind was simulated and none of the kind fails.
pub sim_kind_passed_exact :
    {F : Type 0} ⦃f : Float64 F⦄ (res : ResilienceReport F) (kind : String)
    → (sim_kind_passed res kind).0 ≡ (
        any (λ s. str_eq s.kind kind) res.simulations
        && not (any (fails_kind kind) res.simulations))
unfolding sim_kind_passed
sim_kind_passed_exact res kind = scan_kind_lem kind res.simulations false

abbrev pub all_pass : List PocCheck → Bool
all_pass [] = true
all_pass (k ∷ ks) = is_pass k.status && all_pass ks

all_pass-append : (xs ys : List PocCheck) → all_pass (xs ++ ys) ≡ (all_pass xs && all_pass ys)
all_pass-append [] ys = refl
all_pass-append (x ∷ xs) ys = ground (arith, all_pass-append xs ys)

count-all_pass :
    (ks : List PocCheck) → (count (λ k. is_pass k.status) ks == length ks) ≡ all_pass ks
count-all_pass [] = refl
count-all_pass (k ∷ ks) =
    ground (arith, count-all_pass ks, count-le-length (λ (k : PocCheck). is_pass k.status) ks)

is_pass-status_check :
    (name : String) (b : Bool) (detail : String) → is_pass (status_check name b detail).status ≡ b
unfolding status_check
is_pass-status_check name true detail = refl
is_pass-status_check name false detail = refl

-- The checks all pass, or not.
data Verdict : List PocCheck → Bool → Type 0 where
  verdict : {ks : List PocCheck} {b : Bool} → all_pass ks ≡ b → Verdict ks b
  with_check :
      (a : Bool) {k : PocCheck} {b : Bool} {ks : List PocCheck}
      → is_pass k.status ≡ a
      → Verdict ks b
      → Verdict (k ∷ ks) (a && b)
  in_turn :
      {xs ys : List PocCheck} {a b : Bool}
      → Verdict xs a
      → Verdict ys b
      → Verdict (xs ++ ys) (a && b)

of_Verdict : {ks : List PocCheck} {b : Bool} → Verdict ks b → all_pass ks ≡ b
of_Verdict (verdict h) = h
of_Verdict (with_check a h v) = cc (h, of_Verdict v)
of_Verdict (in_turn {xs = xs} {ys = ys} v w) =
    cc (all_pass-append xs ys, of_Verdict v, of_Verdict w)

module _ {F : Type 0} ⦃f : Float64 F⦄ where
  Verdict-failure_checks :
      (asked : Bool) (name kind : String) (res : ResilienceReport F)
      → Verdict (failure_checks asked name kind res) (not asked || (sim_kind_passed res kind).0)
  unfolding failure_checks
  Verdict-failure_checks true name kind res = verdict (
      ground (
        arith,
        is_pass-status_check name (sim_kind_passed res kind).0 (sim_kind_passed res kind).1,
      ))
  Verdict-failure_checks false name kind res = verdict refl

  Verdict-p99_checks :
      (p99 limit : F)
      → Verdict (p99_checks p99 limit) (not (gt limit nought) || gt p99 nought && f.le p99 limit)
  unfolding p99_checks
  Verdict-p99_checks p99 limit = verdict (ground arith)

  Verdict-tps_checks :
      (tps least : F) → Verdict (tps_checks tps least) (not (gt least nought) || ge tps least)
  unfolding tps_checks
  Verdict-tps_checks tps least = verdict (ground arith)

-- What the criteria ask for.
unfoldable pub meets :
    {F : Type 0} ⦃f : Float64 F⦄ → HealthReport F → ResilienceReport F → PocCriteria F → Bool
meets ⦃f⦄ h res c =
    leb_ℤ c.min_nodes (pos h.topology.tservers_total)
    && (leb_ℤ c.min_azs (pos (length h.topology.zones))
        && (leb_ℤ c.replication_factor h.topology.replication_factor
            && ((not c.tolerate_node_failure || (sim_kind_passed res "node").0)
                && ((not c.tolerate_az_failure || (sim_kind_passed res "az").0)
                    && ((not c.balanced_tablets || is_pass h.tablets.tablet_imbalance)
                        && ((not c.balanced_leaders || is_pass h.tablets.leader_imbalance)
                            && ((not (gt c.max_p99_ysql_ms nought)
                                  || gt h.performance.p99_ysql_ms nought
                                    && f.le h.performance.p99_ysql_ms c.max_p99_ysql_ms)
                                && (not (gt c.min_tps nought)
                                    || ge h.snapshot.workload.tps c.min_tps))))))))

poc_checks-Verdict :
    {F : Type 0} ⦃f : Float64 F⦄ (h : HealthReport F) (res : ResilienceReport F) (c : PocCriteria F)
    → Verdict (poc_checks h res c) (meets h res c)
unfolding poc_checks meets
poc_checks-Verdict h res c = with_check _ (is_pass-status_check _ _ _) (
    with_check _ (is_pass-status_check _ _ _) (
      with_check _ (is_pass-status_check _ _ _) (
        in_turn (Verdict-failure_checks c.tolerate_node_failure "Node failure" "node" res) (
          in_turn (Verdict-failure_checks c.tolerate_az_failure "AZ failure" "az" res) (
            with_check _ (is_pass-status_check _ _ _) (
              with_check _ (is_pass-status_check _ _ _) (
                in_turn (Verdict-p99_checks h.performance.p99_ysql_ms c.max_p99_ysql_ms)
                  (Verdict-tps_checks h.snapshot.workload.tps c.min_tps))))))))

-- The number of checks passed is at most the number of checks, and all pass exactly if every check the
-- criteria ask for does: enough nodes, zones and replicas, tolerance of a node's and of a zone's failure,
-- balanced tablets and leaders, a sampled latency within its limit, and enough transactions.
pub build_poc_verdict :
    {F : Type 0} ⦃f : Float64 F⦄ (h : HealthReport F) (res : ResilienceReport F)
    (given : PocCriteria F)
    → let c = named_criteria given in
      let rep = build_poc h res given in
      (rep.passed ≤ rep.total) × ((rep.passed == rep.total) ≡ meets h res c)
unfolding build_poc
build_poc_verdict h res given = (
  count-le-length _ (poc_checks h res (named_criteria given)),
  count-all_pass (poc_checks h res (named_criteria given))
      ∙ of_Verdict (poc_checks-Verdict h res (named_criteria given)),
)
