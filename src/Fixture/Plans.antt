-- ===== src/Fixture/Plans.antt =====
-- internal/adapter/outbound/fixture/collector.go: `Plan`, `Expand` and the collector. The file system, the
-- JSON decoder, `filepath.Join` and the clock are parameters. The map of a plan is read in its order.
use yb_doctor.Base.{
  ℕ, zero, suc, ◌+◌, ◌-◌, ◌%◌, String, Bool, Option, none, some, List, [], ◌∷◌, length, get_elem?,
  ◌==◌, Dict, get, put, ℤ, pos, pos_part, ◌+ℤ◌, eqb_ℤ, str_eq, if◌then◌else◌, Result, ok, err,
  and_then, ◌>>=◌,
}
use yb_doctor.Float.{Float64}
use yb_doctor.Domain.Ids.{NodeId, Placement}
use yb_doctor.Domain.Cluster.{Snapshot, Master, TServer, Performance, Workload}
use yb_doctor.Yugabyte.Entities.{no_balancer}
use yb_doctor.Fixture.Tablets.{number_of, expand_tablets}
use yb_doctor.Fixture.Faults.{apply_faults}

pub record Plan (F : Type 0) : Type 0 where
  pub replication_factor : ℤ
  pub masters : List Master
  pub tservers : List (TServer F)
  pub leaders : Dict ℤ
  pub followers : Dict ℤ
  pub slow_followers : ℤ
  pub hot_tablets : ℤ
  pub leaderless : ℤ
  pub under_replicated : ℤ
  pub performance : Performance F
  pub workload : Workload F
  pub placement_blocks : List Placement

unfoldable pub remap_counts : Dict ℤ → Dict NodeId → Dict ℤ → Dict ℤ
remap_counts [] by_name out = out
remap_counts ((k, v) ∷ rest) by_name out =
    remap_counts rest by_name (put (elim (get k by_name) [ none ↦ k | some id ↦ id ]) v out)

-- `m[id]++`
unfoldable pub add_one : NodeId → Dict ℤ → Dict ℤ
add_one id m = put id (number_of id m +ℤ pos 1) m

module _ {F : Type 0} where
  unfoldable pub ids_by_name : List (TServer F) → Dict NodeId → Dict NodeId
  ids_by_name [] m = m
  ids_by_name (t ∷ ts) m =
      let named = put t.name t.id m in
      ids_by_name ts (if str_eq t.name "" then put t.host t.id named else named)

  -- `nodes[i%len(nodes)].ID`, for servers of which there is one.
  unfoldable pub nth_id : List (TServer F) → ℕ → NodeId
  nth_id nodes i = elim (get_elem? nodes (i % length nodes)) [ none ↦ "" | some t ↦ t.id ]

  -- `for r := 1; r < rf; r++`, by the rounds that are left.
  unfoldable pub count_followers : List (TServer F) → ℕ → ℕ → Dict ℤ → Dict ℤ
  count_followers nodes zero at followers = followers
  count_followers nodes (suc rounds) at followers =
      count_followers nodes rounds (at + 1) (add_one (nth_id nodes at) followers)

  unfoldable pub balanced_from : List (TServer F) → ℕ → ℕ → ℕ → Dict ℤ → Dict ℤ → Dict ℤ × Dict ℤ
  balanced_from nodes rounds zero i leaders followers = (leaders, followers)
  balanced_from nodes rounds (suc left) i leaders followers =
      balanced_from nodes rounds left (i + 1) (add_one (nth_id nodes i) leaders)
        (count_followers nodes rounds (i + 1) followers)

  unfoldable pub balanced_counts : List (TServer F) → ℕ → ℤ → Dict ℤ × Dict ℤ
  balanced_counts nodes tablets rf = balanced_from nodes (pos_part rf - 1) tablets 0 [] []

  -- The numbers of leaders and followers of a plan: those that it names, or balanced ones.
  unfoldable pub planned_counts : Plan F → ℤ → Dict ℤ × Dict ℤ
  planned_counts plan rf =
      let by_name = ids_by_name plan.tservers [] in
      let leaders = remap_counts plan.leaders by_name [] in
      let followers = remap_counts plan.followers by_name [] in
      if length leaders == 0 then balanced_counts plan.tservers 9 rf else (leaders, followers)

  unfoldable pub factor_of : Plan F → ℤ
  factor_of plan = if eqb_ℤ plan.replication_factor (pos 0) then pos 3 else plan.replication_factor

module _ {F : Type 0} ⦃f : Float64 F⦄ where
  -- The snapshot of a plan; `CollectedAt` is the zero time until `Collect` sets it.
  unfoldable pub expanded : Plan F → Snapshot F
  expanded plan =
      let rf = factor_of plan in
      let (leaders, followers) = planned_counts plan rf in
      record {
        collected_at = pos 0;
        replication_factor = rf;
        placement_blocks = plan.placement_blocks;
        masters = plan.masters;
        tservers = plan.tservers;
        tables = [];
        tablets =
            apply_faults (pos_part plan.slow_followers) (pos_part plan.hot_tablets)
              (pos_part plan.leaderless) (pos_part plan.under_replicated)
              (expand_tablets leaders followers rf);
        under_replicated_ids = [];
        leaderless_ids = [];
        performance = plan.performance;
        workload = plan.workload;
        load_balancer = no_balancer;
      }

  unfoldable pub expand : Plan F → Result (Snapshot F)
  expand plan =
      if length plan.tservers == 0 then err "fixture: plan has no tservers" else ok (expanded plan)

-- What the process gives to the collector.
pub record Disk (F : Type 0) : Type 0 where
  pub is_dir : String → Bool
  pub join : String → String → String
  pub read_file : String → Result String
  pub decode : String → Result (Plan F)

-- `New`, which gives the path to the collector.
unfoldable pub new_fixture : String → Result String
new_fixture path = if str_eq path "" then err "fixture: path is empty" else ok path

module _ {F : Type 0} where
  unfoldable pub scenario_file : Disk F → String → String
  scenario_file disk path = if disk.is_dir path then disk.join path "scenario.json" else path

module _ {F : Type 0} ⦃f : Float64 F⦄ where
  -- `Collect`, with the error of the context if it has ended.
  unfoldable pub collect_scenario : Disk F → Option String → ℤ → String → Result (Snapshot F)
  collect_scenario disk (some e) now path = and_then "fixture collect" (err e) (λ s. s)
  collect_scenario disk none now path = do
    raw ← and_then "read scenario" (disk.read_file (scenario_file disk path)) (λ s. s)
    plan ← and_then "decode scenario" (disk.decode raw) (λ p. p)
    s ← expand plan
    ok (record s { collected_at = now })
