-- ===== src/Witnesses/Data.antt =====
-- A small universe for the examples: three servers of three zones in one region, the third one dead,
-- and two tablets.
use yb_doctor.Base.{ℕ, String, false, List, [], ◌∷◌, pos}
use yb_doctor.Float.{Fraction, frac, fraction_float}
use yb_doctor.Domain.Ids.{
  Placement, Severity, FindingCode, status_alive, status_dead, role_leader, role_follower,
}
use yb_doctor.Domain.Cluster.{TServer, NodeRuntime, TabletPeer, Tablet, Snapshot}
use yb_doctor.Domain.Report.{Finding, NodeTabletStats, RaftSummary}

abbrev pub zone_of : String → Placement
zone_of z = record { cloud = "aws"; region = "eu"; zone = z }

abbrev pub zero_f : Fraction
zero_f = frac 0 1

abbrev pub server : String → String → String → TServer Fraction
server id status zone = record {
  id = id;
  name = id;
  host = "h";
  http_addr = "";
  rpc_addr = "";
  status = status;
  placement = zone_of zone;
  uptime = pos 0;
  ram_used_bytes = pos 0;
  disk_used_pct = zero_f;
  read_ops = zero_f;
  write_ops = zero_f;
}

abbrev pub peer : String → String → TabletPeer
peer id role = record { tserver_id = id; role = role; state = "RUNNING"; lag = pos 0 }

abbrev pub tablet : String → List TabletPeer → Tablet Fraction
tablet id peers = record {
  id = id;
  table_id = "t";
  table_name = "t";
  state = "RUNNING";
  leader_id = "";
  peers = peers;
  size_bytes = pos 0;
  read_ops = zero_f;
  write_ops = zero_f;
}

abbrev pub first_tablet : Tablet Fraction
first_tablet =
    tablet "x" (peer "n1" role_leader ∷ peer "n2" role_follower ∷ peer "n3" role_follower ∷ [])

abbrev pub runtime : NodeRuntime Fraction
runtime = record {
  cpu_percent = zero_f;
  memory_percent = zero_f;
  disk_percent = frac 90 1;
  pending_compaction_bytes = pos 0;
  sst_file_bytes = pos 5;
  write_latency_delta_pct = zero_f;
  flags = ("full_compaction_pool_max_threads", "4") ∷ [];
}

abbrev pub town : Snapshot Fraction
town = record {
  collected_at = pos 0;
  replication_factor = pos 3;
  placement_blocks = [];
  masters = [];
  tservers =
      server "n1" status_alive "a"
      ∷ server "n2" status_alive "b"
      ∷ server "n3" status_dead "c"
      ∷ [];
  tables = [];
  tablets = first_tablet ∷ tablet "y" (peer "n1" role_follower ∷ peer "n2" role_leader ∷ []) ∷ [];
  under_replicated_ids = [];
  leaderless_ids = [];
  performance = record {
    p50_ysql_ms = zero_f;
    p95_ysql_ms = zero_f;
    p99_ysql_ms = frac 30 1;
    p99_source = "";
    slow_queries = pos 0;
    read_latency_ms = zero_f;
    write_latency_ms = zero_f;
    nodes = ("n1", runtime) ∷ [];
  };
  workload = record {
    database_bytes = pos 0;
    tps = zero_f;
    read_pct = zero_f;
    write_pct = zero_f;
    connections = pos 0;
  };
  load_balancer = record { known = false; enabled = false; has_idle = false; idle = false };
}

-- One tablet on one server, so that losing the server loses the tablet.
abbrev pub hamlet : Snapshot Fraction
hamlet = record town { tablets = tablet "z" (peer "n1" role_leader ∷ []) ∷ [] }

abbrev pub note : Severity → FindingCode → Finding
note severity code = record {
  severity = severity;
  code = code;
  title = "";
  summary = "";
  evidence = [];
  node = "n1";
}

abbrev pub row : String → ℕ → NodeTabletStats
row name leaders = record {
  name = name;
  node_id = name;
  leaders = leaders;
  followers = 0;
  total = leaders;
  sst_bytes = pos 0;
  pending_compaction_bytes = pos 0;
}

abbrev pub raft_counts : ℕ → ℕ → RaftSummary
raft_counts leaderless under = record {
  leaderless = leaderless;
  under_replicated = under;
  slow_followers = 0;
  failed_peers = 0;
}
