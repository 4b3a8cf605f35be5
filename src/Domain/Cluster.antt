-- ===== src/Domain/Cluster.antt =====
-- internal/domain/cluster.go and tablet.go: the snapshot, its tablets, and what is read off them.
-- The numbers of type float64 are of a type `F`; durations and byte counts are integers.
use yb_doctor.Base.{
  ℕ, ◌+◌, ◌/◌, String, Bool, true, ◌||◌, not, ltb, Option, none, some, List, [], ◌∷◌, ◌++◌, length,
  filter, count, any, has, Dict, ℤ, pos, negsuc, str_eq, if◌then◌else◌,
}
use yb_doctor.Domain.Ids.{
  NodeId, TabletId, TableId, ReplicaRole, NodeStatus, role_leader, status_alive, Placement, key,
  region_key,
}
use yb_doctor.Float.{Float64}

pub record Master : Type 0 where
  pub id : NodeId
  pub host : String
  pub http_addr : String
  pub rpc_addr : String
  pub role : ReplicaRole
  pub placement : Placement
  pub healthy : Bool

pub record TServer (F : Type 0) : Type 0 where
  pub id : NodeId
  pub name : String
  pub host : String
  pub http_addr : String
  pub rpc_addr : String
  pub status : NodeStatus
  pub placement : Placement
  pub uptime : ℤ
  pub ram_used_bytes : ℤ
  pub disk_used_pct : F
  pub read_ops : F
  pub write_ops : F

pub record LoadBalancer : Type 0 where
  pub known : Bool
  pub enabled : Bool
  pub has_idle : Bool
  pub idle : Bool

pub record Table : Type 0 where
  pub id : TableId
  pub keyspace : String
  pub name : String
  pub table_type : String
  pub state : String

pub record NodeRuntime (F : Type 0) : Type 0 where
  pub cpu_percent : F
  pub memory_percent : F
  pub disk_percent : F
  pub pending_compaction_bytes : ℤ
  pub sst_file_bytes : ℤ
  pub write_latency_delta_pct : F
  pub flags : Dict String

pub record Performance (F : Type 0) : Type 0 where
  pub p50_ysql_ms : F
  pub p95_ysql_ms : F
  pub p99_ysql_ms : F
  pub p99_source : String
  pub slow_queries : ℤ
  pub read_latency_ms : F
  pub write_latency_ms : F
  pub nodes : Dict (NodeRuntime F)

pub record Workload (F : Type 0) : Type 0 where
  pub database_bytes : ℤ
  pub tps : F
  pub read_pct : F
  pub write_pct : F
  pub connections : ℤ

pub record TabletPeer : Type 0 where
  pub tserver_id : NodeId
  pub role : ReplicaRole
  pub state : String
  pub lag : ℤ

pub record Tablet (F : Type 0) : Type 0 where
  pub id : TabletId
  pub table_id : TableId
  pub table_name : String
  pub state : String
  pub leader_id : NodeId
  pub peers : List TabletPeer
  pub size_bytes : ℤ
  pub read_ops : F
  pub write_ops : F

pub record Snapshot (F : Type 0) : Type 0 where
  pub collected_at : ℤ
  pub replication_factor : ℤ
  pub placement_blocks : List Placement
  pub masters : List Master
  pub tservers : List (TServer F)
  pub tables : List Table
  pub tablets : List (Tablet F)
  pub under_replicated_ids : List TabletId
  pub leaderless_ids : List TabletId
  pub performance : Performance F
  pub workload : Workload F
  pub load_balancer : LoadBalancer

-- `TServer.Alive`
abbrev pub alive : {F : Type 0} → TServer F → Bool
alive t = str_eq t.status status_alive

abbrev pub is_voting : TabletPeer → Bool
is_voting p = not (str_eq p.state "TOMBSTONED")

-- The body of `QuorumSize`, as a function of the replication factor.
unfoldable pub quorum_of : ℤ → ℕ
quorum_of (pos rf) = if ltb rf 1 then 1 else rf / 2 + 1
quorum_of (negsuc n) = 1

module _ {F : Type 0} where
  unfoldable pub voting_peers : Tablet F → List TabletPeer
  voting_peers t = filter is_voting t.peers

  unfoldable pub has_leader : Tablet F → Bool
  unfolding voting_peers
  has_leader t =
      if not (str_eq t.leader_id "")
      then true
      else any (λ p. str_eq p.role role_leader) (voting_peers t)

  unfoldable pub replica_count : Tablet F → ℕ
  unfolding voting_peers
  replica_count t = length (voting_peers t)

  unfoldable pub ops : ⦃f : Float64 F⦄ → Tablet F → F
  ops ⦃f⦄ t = f.add t.read_ops t.write_ops

  -- The loop of `TServerByID`: the first server with the id.
  unfoldable pub find_tserver : NodeId → List (TServer F) → Option (TServer F)
  find_tserver i [] = none
  find_tserver i (t ∷ ts) = if str_eq t.id i then some t else find_tserver i ts

  unfoldable pub tserver_by_id : Snapshot F → NodeId → Option (TServer F)
  unfolding find_tserver
  tserver_by_id s i = find_tserver i s.tservers

  unfoldable pub find_named : String → List (TServer F) → Option (TServer F)
  find_named n [] = none
  find_named n (t ∷ ts) = if str_eq t.name n || str_eq t.host n then some t else find_named n ts

  unfoldable pub tserver_by_name : Snapshot F → String → Option (TServer F)
  unfolding find_named
  tserver_by_name s n = find_named n s.tservers

  unfoldable pub healthy_masters : Snapshot F → ℕ × ℕ
  healthy_masters s = (count (λ m. m.healthy) s.masters, length s.masters)

  unfoldable pub healthy_tservers : Snapshot F → ℕ × ℕ
  healthy_tservers s = (count alive s.tservers, length s.tservers)

  -- The loop of `Regions` and `Zones`: a key is appended when it is seen for the first time.
  unfoldable pub collect_keys : (Placement → String) → List (TServer F) → List String → List String
  collect_keys of [] out = out
  collect_keys of (t ∷ ts) out =
      let k = of t.placement in collect_keys of ts (if has k out then out else out ++ (k ∷ []))

  unfoldable pub regions : Snapshot F → List String
  unfolding collect_keys
  regions s = collect_keys region_key s.tservers []

  unfoldable pub zones : Snapshot F → List String
  unfolding collect_keys
  zones s = collect_keys key s.tservers []

  unfoldable pub quorum_size : Snapshot F → ℕ
  unfolding quorum_of
  quorum_size s = quorum_of s.replication_factor
