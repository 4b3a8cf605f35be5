-- ===== src/App/Diff.antt =====
-- internal/app/diff.go: what changed between two reports. A nil report is `none`.
pub mod Delta
pub mod Leaders
pub mod Between
use yb_doctor.Base.{
  ℕ, String, Bool, true, false, not, Option, none, some, List, [], ◌∷◌, ◌++◌, map, filter, Dict,
  get, put, has, ◌==◌, sort_strings, show_ℕ, concat, if◌then◌else◌,
}
use yb_doctor.Domain.Ids.{FindingCode}
use yb_doctor.Domain.Report.{Finding, NodeTabletStats, NodeCountDelta, HealthReport, HealthDiff}

unfoldable pub ratio : ℕ → ℕ → String
ratio n d = concat (show_ℕ n ∷ "/" ∷ show_ℕ d ∷ [])

-- The keys of a map that is filled from a list: each text once.
unfoldable pub keys_into : List String → List String → List String
keys_into [] out = out
keys_into (k ∷ ks) out = keys_into ks (if has k out then out else out ++ (k ∷ []))

-- The codes of `xs` that are not codes of `ys`, in the order of `sort.Slice`.
unfoldable pub codes_only_in : List Finding → List Finding → List FindingCode
codes_only_in xs ys =
    let p = keys_into (map (λ (f : Finding). f.code) ys) [] in
    let c = keys_into (map (λ (f : Finding). f.code) xs) [] in
    sort_strings (filter (λ code. not (has code p)) c)

unfoldable pub finding_delta : List Finding → List Finding → List FindingCode × List FindingCode
finding_delta prev curr = (codes_only_in curr prev, codes_only_in prev curr)

-- `from[n.Name] = n.Leaders`: the last row of a name wins.
unfoldable pub leaders_into : List NodeTabletStats → Dict ℕ → Dict ℕ
leaders_into [] m = m
leaders_into (n ∷ ns) m = leaders_into ns (put n.name n.leaders m)

-- A missing name reads 0.
abbrev pub count_at : String → Dict ℕ → ℕ
count_at k m = elim (get k m) [ none ↦ 0 | some n ↦ n ]

unfoldable pub changed : Dict ℕ → Dict ℕ → List String → List NodeCountDelta
changed from curr [] = []
changed from curr (name ∷ names) =
    let rest = changed from curr names in
    let a = count_at name from in
    let b = count_at name curr in
    if a == b then rest else record { name = name; from = a; to = b } ∷ rest

unfoldable pub leader_deltas : List NodeTabletStats → List NodeTabletStats → List NodeCountDelta
leader_deltas prev curr =
    let names =
      keys_into (map (λ (n : NodeTabletStats). n.name) prev)
        (keys_into (map (λ (n : NodeTabletStats). n.name) curr) []) in
    changed (leaders_into prev []) (leaders_into curr []) (sort_strings names)

module _ {F : Type 0} where
  unfoldable pub diff_of : String → HealthReport F → HealthReport F → HealthDiff F
  diff_of baseline prev curr =
      let (added, removed) = finding_delta prev.findings curr.findings in
      record {
        baseline = baseline;
        score_from = prev.score;
        score_to = curr.score;
        masters_from = ratio prev.topology.masters_healthy prev.topology.masters_total;
        masters_to = ratio curr.topology.masters_healthy curr.topology.masters_total;
        tservers_from = ratio prev.topology.tservers_healthy prev.topology.tservers_total;
        tservers_to = ratio curr.topology.tservers_healthy curr.topology.tservers_total;
        under_replicated_from = prev.raft.under_replicated;
        under_replicated_to = curr.raft.under_replicated;
        leaderless_from = prev.raft.leaderless;
        leaderless_to = curr.raft.leaderless;
        p99_from = prev.performance.p99_ysql_ms;
        p99_to = curr.performance.p99_ysql_ms;
        findings_added = added;
        findings_removed = removed;
        leaders = leader_deltas prev.tablets.per_node curr.tablets.per_node;
      }

  unfoldable pub diff_reports :
      String → Option (HealthReport F) → Option (HealthReport F) → Option (HealthDiff F)
  diff_reports baseline (some prev) (some curr) = some (diff_of baseline prev curr)
  diff_reports baseline _ _ = none
