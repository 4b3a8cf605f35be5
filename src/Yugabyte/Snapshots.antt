-- ===== src/Yugabyte/Snapshots.antt =====
-- internal/adapter/outbound/yugabyte/parse.go: `parseSnapshot`.
pub mod Failures
use yb_doctor.Base.{
  String, List, [], ◌∷◌, length, ltb, ℤ, pos, eqb_ℤ, if◌then◌else◌, Result, ok, ◌>>=◌,
}
use yb_doctor.Float.{Float64, nought}
use yb_doctor.Domain.Cluster.{Snapshot, Performance, Workload}
use yb_doctor.Yugabyte.Bodies.{Json}
use yb_doctor.Yugabyte.Servers.{decoded, parse_cluster_config, parse_masters, parse_tservers}
use yb_doctor.Yugabyte.Entities.{
  no_balancer, parse_entities, parse_health, parse_replication, assign_tserver_uuids,
}

-- The texts of the answers, empty where an optional one is missing.
pub record Answers : Type 0 where
  pub masters : String
  pub tservers : String
  pub config : String
  pub health : String
  pub replication : String
  pub entities : String

module _ {F : Type 0} ⦃f : Float64 F⦄ where
  unfoldable pub empty_performance : Performance F
  empty_performance = record {
    p50_ysql_ms = nought;
    p95_ysql_ms = nought;
    p99_ysql_ms = nought;
    p99_source = "";
    slow_queries = pos 0;
    read_latency_ms = nought;
    write_latency_ms = nought;
    nodes = [];
  }

  unfoldable pub empty_workload : Workload F
  empty_workload = record {
    database_bytes = pos 0;
    tps = nought;
    read_pct = nought;
    write_pct = nought;
    connections = pos 0;
  }

  unfoldable pub parse_snapshot : Json F → ℤ → Answers → Result (Snapshot F)
  parse_snapshot json now a = do
    (rf, blocks) ← decoded "parse cluster-config" (parse_cluster_config json a.config)
    masters ← decoded "parse masters" (parse_masters json a.masters)
    tservers ← decoded "parse tablet-servers" (parse_tservers json a.tservers)
    (tables, tablets, hosts) ← decoded "parse dump-entities" (parse_entities json a.entities)
    let (under, leaderless) = parse_health json a.health
    let (u2, l2) = parse_replication json a.replication
    ok (record {
      collected_at = now;
      replication_factor = if eqb_ℤ rf (pos 0) then pos 3 else rf;
      placement_blocks = blocks;
      masters = masters;
      tservers = assign_tserver_uuids tservers hosts;
      tables = tables;
      tablets = tablets;
      under_replicated_ids = if ltb 0 (length u2) then u2 else under;
      leaderless_ids = if ltb 0 (length l2) then l2 else leaderless;
      performance = empty_performance;
      workload = empty_workload;
      load_balancer = no_balancer;
    })
