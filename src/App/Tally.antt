-- ===== src/App/Tally.antt =====
-- internal/app/tablets.go, `analyzeTablets`: the counters of each node. `perNode` is a map from node
-- to counters, and `order` the nodes in the order of their discovery.
pub mod PerNode
use yb_doctor.Base.{
  ℕ, zero, suc, ◌+◌, String, Bool, true, false, ◌&&◌, ◌||◌, not, Option, none, some, List, [], ◌∷◌,
  ◌++◌, map, foldl, length, count, Dict, get, put, sort_by, ltb, leb, ◌==◌, ℤ, pos, negsuc, ltb_ℤ,
  leb_ℤ, eqb_ℤ, str_eq, str_ltb, concat, if◌then◌else◌,
}
use yb_doctor.Float.{Float64, nought, whole, ge, gt}
use yb_doctor.Domain.Ids.{NodeId, CheckStatus, check_pass, check_warn, role_leader}
use yb_doctor.Domain.Cluster.{
  Snapshot, TServer, Tablet, TabletPeer, NodeRuntime, LoadBalancer, alive, voting_peers, ops,
  tserver_by_id, find_tserver,
}
use yb_doctor.Domain.Report.{NodeTabletStats, TabletSummary}
use yb_doctor.Config.{Thresholds}
use yb_doctor.App.Raft.{count_ids_or, is_under_replicated, is_leaderless}
use yb_doctor.App.Groups.{display_name}

abbrev pub fresh : String → NodeId → NodeTabletStats
fresh name id = record {
  name = name;
  node_id = id;
  leaders = 0;
  followers = 0;
  total = 0;
  sst_bytes = pos 0;
  pending_compaction_bytes = pos 0;
}

pub record Tally : Type 0 where
  pub per_node : Dict NodeTabletStats
  pub order : List NodeId

-- `st.Total++`, and `st.Leaders++` or `st.Followers++`.
unfoldable pub bump : Bool → NodeTabletStats → NodeTabletStats
bump leads st =
    if leads
    then record st { leaders = st.leaders + 1; total = st.total + 1 }
    else record st { followers = st.followers + 1; total = st.total + 1 }

-- The statistics of a node, and the order, for a peer on the node.
unfoldable pub add_to : NodeId → Bool → Tally → Tally
add_to i leads t = elim (get i t.per_node) [
  | some st ↦ record t { per_node = put i (bump leads st) t.per_node }
  | none ↦ record {
    per_node = put i (bump leads (fresh i i)) t.per_node;
    order = t.order ++ (i ∷ []);
  }
]

-- `rows`, before the sort: the entries in the order of discovery.
unfoldable pub rows_of : List NodeId → Dict NodeTabletStats → List NodeTabletStats
rows_of [] m = []
rows_of (i ∷ is) m = elim (get i m) [ none ↦ rows_of is m | some st ↦ st ∷ rows_of is m ]

module _ {F : Type 0} where
  unfoldable pub leads_tablet : Tablet F → TabletPeer → Bool
  leads_tablet t p =
      str_eq p.role role_leader || (not (str_eq t.leader_id "") && str_eq p.tserver_id t.leader_id)

  unfoldable pub add_peers : Tablet F → List TabletPeer → Tally → Tally
  add_peers t [] a = a
  add_peers t (p ∷ ps) a = add_peers t ps (add_to p.tserver_id (leads_tablet t p) a)

  unfoldable pub add_tablets : List (Tablet F) → Tally → Tally
  add_tablets [] a = a
  add_tablets (t ∷ ts) a = add_tablets ts (add_peers t (voting_peers t) a)

  unfoldable pub add_servers : List (TServer F) → Tally → Tally
  add_servers [] a = a
  add_servers (t ∷ ts) a = add_servers ts (record {
    per_node = put t.id (fresh (display_name t) t.id) a.per_node;
    order = a.order ++ (t.id ∷ []);
  })

  unfoldable pub tally : Snapshot F → Tally
  tally s = add_tablets s.tablets (add_servers s.tservers (record { per_node = []; order = [] }))

  abbrev pub known_alive : Snapshot F → NodeId → Bool
  known_alive s i = elim (tserver_by_id s i) [ none ↦ false | some t ↦ alive t ]

  -- `aliveLeaders` and `aliveTotals`.
  unfoldable pub alive_counts :
      Snapshot F → (NodeTabletStats → ℕ) → List NodeId → Dict NodeTabletStats → List ℕ
  alive_counts s of [] m = []
  alive_counts s of (i ∷ is) m =
      let rest = alive_counts s of is m in
      elim (get i m) [ none ↦ rest | some st ↦ if known_alive s i then of st ∷ rest else rest ]

  unfoldable pub with_runtime : Snapshot F → NodeTabletStats → NodeTabletStats
  with_runtime s st = elim (get st.name s.performance.nodes) [
    | none ↦ st
    | some rt ↦ record st {
      sst_bytes = rt.sst_file_bytes;
      pending_compaction_bytes = rt.pending_compaction_bytes;
    }
  ]

  -- `sort.Slice` by name. It is not stable in the code; rows of one name keep their order here.
  unfoldable pub node_rows : Snapshot F → Tally → List NodeTabletStats
  node_rows s a = map (with_runtime s) (
      sort_by (λ (x : NodeTabletStats) (y : NodeTabletStats). str_ltb x.name y.name)
        (rows_of a.order a.per_node))
