-- ===== src/App/Tablets.antt =====
-- internal/app/tablets.go: `analyzeTablets` as a whole, and the evidence for an imbalance.
use yb_doctor.Base.{
  ℕ, String, true, ◌&&◌, ◌||◌, not, List, [], ◌∷◌, foldl, length, count, ltb, ◌==◌, str_eq, concat,
  if◌then◌else◌,
}
use yb_doctor.Float.{Float64, nought, whole, ge, gt}
use yb_doctor.Domain.Ids.{CheckStatus, check_pass, check_warn}
use yb_doctor.Domain.Cluster.{Snapshot, LoadBalancer, ops}
use yb_doctor.Domain.Report.{TabletSummary}
use yb_doctor.Config.{Thresholds}
use yb_doctor.App.Raft.{count_ids_or, is_under_replicated, is_leaderless}
use yb_doctor.App.Tally.{tally, alive_counts, node_rows}
use yb_doctor.App.Skew.{max_min_ratio, extreme_alive_names, sst_skew}

module _ {F : Type 0} ⦃f : Float64 F⦄ where
  unfoldable pub average_ops : Snapshot F → F
  average_ops s =
      if length s.tablets == 0
      then nought
      else f.div (foldl (λ sum t. f.add sum (ops t)) nought s.tablets) (whole (length s.tablets))

  unfoldable pub count_hot : Snapshot F → Thresholds F → ℕ
  count_hot s th =
      let average = average_ops s in
      if gt average nought
      then count (λ t. ge (ops t) (f.mul average th.hot_tablet_ops_ratio)) s.tablets
      else 0

  -- `ratio >= threshold && len(values) > 1`
  unfoldable pub imbalance : F → F → ℕ → CheckStatus
  imbalance ratio threshold n = if ge ratio threshold && ltb 1 n then check_warn else check_pass

  unfoldable pub sst_imbalance : F × String × String → F → CheckStatus
  sst_imbalance (ratio, hot, cold) threshold =
      if ge ratio threshold && not (str_eq hot cold) && not (str_eq hot "")
      then check_warn
      else check_pass

  unfoldable pub analyze_tablets : Snapshot F → Thresholds F → TabletSummary F
  analyze_tablets s th =
      let a = tally s in
      let leaders = alive_counts s (λ st. st.leaders) a.order a.per_node in
      let totals = alive_counts s (λ st. st.total) a.order a.per_node in
      let hot_cold = extreme_alive_names s a.per_node true in
      let skew = sst_skew s in
      record {
        total = length s.tablets;
        under_replicated = count_ids_or s.under_replicated_ids s.tablets (is_under_replicated s);
        leaderless = count_ids_or s.leaderless_ids s.tablets is_leaderless;
        leader_imbalance =
            imbalance (max_min_ratio leaders).0 th.leader_imbalance_ratio (length leaders);
        tablet_imbalance =
            imbalance (max_min_ratio totals).0 th.tablet_imbalance_ratio (length totals);
        hot_tablets = count_hot s th;
        per_node = node_rows s a;
        leader_ratio = (max_min_ratio leaders).0;
        tablet_ratio = (max_min_ratio totals).0;
        hottest_node = hot_cold.0;
        coldest_node = hot_cold.1;
        sst_imbalance = sst_imbalance skew th.sst_imbalance_ratio;
        sst_ratio = skew.0;
        sst_hottest_node = skew.1;
        sst_coldest_node = skew.2;
      }

  unfoldable pub leader_imbalance_evidence : TabletSummary F → LoadBalancer → List String
  leader_imbalance_evidence sum lb =
      let msg =
        if f.is_inf sum.leader_ratio
        then concat
            (sum.hottest_node ∷ " holds every Raft leader; " ∷ sum.coldest_node ∷ " has none" ∷ [])
        else concat (
            sum.hottest_node
            ∷ " has "
            ∷ f.fixed 1 sum.leader_ratio
            ∷ "x more leaders than "
            ∷ sum.coldest_node
            ∷ []) in
      let advice =
        if lb.has_idle && not lb.idle
        then "Master load balancer is still running"
        else if lb.has_idle && lb.idle
        then "Master load balancer is idle; this skew is leftover placement"
        else if lb.known && not lb.enabled
        then "Master load balancing is disabled; this skew will not self-heal"
        else if lb.known && lb.enabled
        then "Master load balancing is enabled; idle state is not exposed on this Master"
        else "consider checking leader balancing" in
      if str_eq sum.hottest_node "" || str_eq sum.coldest_node "" then [] else msg ∷ advice ∷ []

  unfoldable pub tablet_imbalance_evidence : String → String → F → String
  tablet_imbalance_evidence hot cold ratio =
      if f.is_inf ratio
      then concat (hot ∷ " hosts every tablet peer; " ∷ cold ∷ " has none" ∷ [])
      else concat (
          hot
          ∷ " hosts "
          ∷ f.fixed 0 (f.mul (f.sub ratio (whole 1)) (whole 100))
          ∷ "% more tablet peers than "
          ∷ cold
          ∷ [])
