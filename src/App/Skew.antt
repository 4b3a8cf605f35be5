-- ===== src/App/Skew.antt =====
-- internal/app/tablets.go: `maxMinRatio`, `extremeAliveNames` and `sstSkew`.
pub mod Extremes
use yb_doctor.Base.{
  ℕ, zero, suc, ◌+◌, String, Bool, true, false, ◌&&◌, ◌||◌, not, Option, none, some, List, [], ◌∷◌,
  ◌++◌, map, foldl, length, count, Dict, get, put, sort_by, ltb, leb, ◌==◌, ℤ, pos, negsuc, ltb_ℤ,
  leb_ℤ, eqb_ℤ, str_eq, str_ltb, concat, if◌then◌else◌,
}
use yb_doctor.Float.{Float64, nought, whole, ge, gt}
use yb_doctor.Domain.Ids.{NodeId, CheckStatus, check_pass, check_warn, role_leader}
use yb_doctor.Domain.Cluster.{
  Snapshot, TServer, Tablet, TabletPeer, NodeRuntime, LoadBalancer, alive, voting_peers, ops,
  tserver_by_id, find_tserver,
}
use yb_doctor.Domain.Report.{NodeTabletStats, TabletSummary}
use yb_doctor.Config.{Thresholds}
use yb_doctor.App.Raft.{count_ids_or, is_under_replicated, is_leaderless}
use yb_doctor.App.Groups.{display_name}

-- What the loop of `maxMinRatio` carries, and one round of it.
pub record Extreme : Type 0 where
  pub max_v : ℕ
  pub min_v : ℕ
  pub max_i : ℕ
  pub min_i : ℕ

unfoldable pub widen_to : ℕ → ℕ → Extreme → Extreme
widen_to i v e =
    let up = if ltb e.max_v v then record e { max_v = v; max_i = i } else e in
    if ltb v up.min_v then record up { min_v = v; min_i = i } else up

unfoldable pub scan_extremes : ℕ → List ℕ → Extreme → Extreme
scan_extremes i [] e = e
scan_extremes i (v ∷ vs) e = scan_extremes (suc i) vs (widen_to i v e)

-- The two names and counts that `extremeAliveNames` carries.
pub record HotCold : Type 0 where
  pub max_n : ℕ
  pub min_n : ℕ
  pub hot : String
  pub cold : String

-- One server of the loop, after the first: `none` stands for `first`.
unfoldable pub next_hot_cold : Option HotCold → String → ℕ → Option HotCold
next_hot_cold none name n = some (record { max_n = n; min_n = n; hot = name; cold = name })
next_hot_cold (some h) name n =
    let up = if ltb h.max_n n then record h { max_n = n; hot = name } else h in
    some (if ltb n up.min_n then record up { min_n = n; cold = name } else up)

module _ {F : Type 0} where
  unfoldable pub hot_cold_from :
      List (TServer F) → Dict NodeTabletStats → Bool → Option HotCold → Option HotCold
  hot_cold_from [] m leaders h = h
  hot_cold_from (t ∷ ts) m leaders h = hot_cold_from ts m leaders (
      if alive t
      then elim (get t.id m) [
        | none ↦ h
        | some st ↦ next_hot_cold h st.name (if leaders then st.leaders else st.total)
      ]
      else h)

  unfoldable pub extreme_alive_names : Snapshot F → Dict NodeTabletStats → Bool → String × String
  extreme_alive_names s m leaders = elim (hot_cold_from s.tservers m leaders none) [
    | none ↦ ("", "")
    | some h ↦ (h.hot, h.cold)
  ]

  -- `sstSkew`'s slice `alive`. A name with no entry reads 0.
  unfoldable pub sst_pairs : Snapshot F → List (TServer F) → List (String × ℤ)
  sst_pairs s [] = []
  sst_pairs s (t ∷ ts) =
      let rest = sst_pairs s ts in
      let name = display_name t in
      if alive t
      then (
        name,
        elim (get name s.performance.nodes) [ none ↦ pos 0 | some rt ↦ rt.sst_file_bytes ],
      )
        ∷ rest
      else rest

unfoldable pub widen : List (String × ℤ) → String × ℤ → String × ℤ → (String × ℤ) × (String × ℤ)
widen [] hi lo = (hi, lo)
widen (p ∷ ps) hi lo =
    widen ps (if ltb_ℤ hi.1 p.1 then p else hi) (if ltb_ℤ p.1 lo.1 then p else lo)

module _ {F : Type 0} ⦃f : Float64 F⦄ where
  unfoldable pub ratio_of : ℕ → ℕ → F
  ratio_of max_v min_v =
      if min_v == 0
      then if max_v == 0 then whole 1 else f.inf
      else f.div (whole max_v) (whole min_v)

  -- The ratio, and the places of the greatest and the least value.
  unfoldable pub max_min_ratio : List ℕ → F × ℤ × ℤ
  max_min_ratio [] = (whole 1, negsuc 0, negsuc 0)
  max_min_ratio (v ∷ vs) =
      let e = scan_extremes 0 (v ∷ vs) (record { max_v = v; min_v = v; max_i = 0; min_i = 0 }) in
      (ratio_of e.max_v e.min_v, pos e.max_i, pos e.min_i)

  unfoldable pub sst_ratio : String × ℤ → String × ℤ → F
  sst_ratio hi lo =
      if leb_ℤ lo.1 (pos 0)
      then if eqb_ℤ hi.1 (pos 0) then whole 1 else f.inf
      else f.div (f.of_ℤ hi.1) (f.of_ℤ lo.1)

  skew_of : List (String × ℤ) → F × String × String
  skew_of (p ∷ q ∷ ps) = let (hi, lo) = widen (q ∷ ps) p p in (sst_ratio hi lo, hi.0, lo.0)
  skew_of _ = (whole 1, "", "")

  unfoldable pub sst_skew : Snapshot F → F × String × String
  unfolding skew_of
  sst_skew s = skew_of (sst_pairs s s.tservers)
