-- ===== src/App/Explain/Articles.antt =====
-- internal/app/explain.go: the entries of `catalog`, those of the tablets and the servers.
use yb_doctor.Base.{[], ◌∷◌}
use yb_doctor.Domain.Ids.{
  code_leader_imbalance, code_tablet_imbalance, code_under_replicated, code_leaderless,
  code_slow_followers, code_compaction_pressure, code_sst_imbalance,
}
use yb_doctor.Domain.Report.{Explanation}

abbrev pub leader_imbalance_article : Explanation
leader_imbalance_article = record {
  code = code_leader_imbalance;
  what = "Raft tablet leaders are unevenly distributed across TServers.";
  why_it_matters =
      "The leader is the only replica that serves writes (and, by default, reads). Uneven leadership concentrates CPU, WAL, and network on a few nodes.";
  current_cluster = [];
  possible_causes =
      ("recently added or removed TServer" ∷ "load balancer still running"
        ∷ "placement / leader affinity constraints" ∷ "a TServer was unavailable during balancing"
        ∷ []);
  next_steps =
      ("Check cluster balancing status on the Master leader" ∷ "Confirm every TServer is ALIVE"
        ∷ "Review leader-affinity / preferred zones"
        ∷ "Allow the built-in load balancer to finish before adding more nodes" ∷ []);
}

abbrev pub tablet_imbalance_article : Explanation
tablet_imbalance_article = record {
  code = code_tablet_imbalance;
  what = "Tablet distribution across TServers is uneven.";
  why_it_matters =
      "Uneven tablet placement creates CPU, memory, disk, and network hotspots even when leaders look balanced.";
  current_cluster = [];
  possible_causes =
      ("recently added/removed node" ∷ "rebalance still running" ∷ "placement constraints"
        ∷ "tablet splitting" ∷ "node unavailable" ∷ []);
  next_steps =
      ("Check cluster balancing status" ∷ "Check placement configuration" ∷ "Check failed TServers"
        ∷ "Check tablet splitting activity" ∷ []);
}

abbrev pub under_replicated_article : Explanation
under_replicated_article = record {
  code = code_under_replicated;
  what = "One or more tablets have fewer voting replicas than the configured replication factor.";
  why_it_matters =
      "Under-replication shrinks the Raft majority. The next failure can make the tablet leaderless.";
  current_cluster = [];
  possible_causes =
      ("TServer down or excluded" ∷ "disk full / blacklisted node"
        ∷ "tablespace placement that does not match live AZs" ∷ "remote bootstrap still in progress"
        ∷ []);
  next_steps =
      ("Inspect /api/v1/tablet-under-replication on the Master leader"
        ∷ "Restore or replace the missing TServer" ∷ "Verify placement_blocks vs actual AZs"
        ∷ "Watch remote bootstrap progress before forcing copies" ∷ []);
}

abbrev pub leaderless_article : Explanation
leaderless_article = record {
  code = code_leaderless;
  what = "Tablets have no Raft leader.";
  why_it_matters =
      "A leaderless tablet cannot accept writes. This is an availability incident, not a warning.";
  current_cluster = [];
  possible_causes =
      ("majority of replicas down" ∷ "clock skew / hybrid-clock issues"
        ∷ "network partition between remaining peers"
        ∷ "tablet in a transitional state after a node death" ∷ []);
  next_steps =
      ("Inspect /api/v1/tablet-replication for leaderless_tablets"
        ∷ "Bring back enough TServers to restore majority"
        ∷ "Check clock synchronization (chrony/NTP)"
        ∷ "Only then consider yb-admin force_change_leader as a last resort" ∷ []);
}

abbrev pub slow_followers_article : Explanation
slow_followers_article = record {
  code = code_slow_followers;
  what = "Raft followers are lagging the leader WAL.";
  why_it_matters =
      "Lagging followers slow commits (for RF) and lengthen recovery if the leader fails.";
  current_cluster = [];
  possible_causes =
      ("disk saturation on the follower" ∷ "compaction pressure" ∷ "network congestion"
        ∷ "CPU steal / noisy neighbor" ∷ []);
  next_steps =
      ("Compare follower_lag_ms across TServers"
        ∷ "Check compaction and disk utilization on lagging nodes"
        ∷ "Verify network RTT between AZs" ∷ []);
}

abbrev pub compaction_pressure_article : Explanation
compaction_pressure_article = record {
  code = code_compaction_pressure;
  what = "DocDB (RocksDB) has a large pending compaction backlog on one or more TServers.";
  why_it_matters =
      "Compaction debt increases write amplification, read latency, and disk usage. It is a leading indicator of a write stall.";
  current_cluster = [];
  possible_causes =
      ("sustained write burst" ∷ "disk already near capacity" ∷ "too many tablets on the node"
        ∷ "undersized compaction threads / SSD too slow" ∷ []);
  next_steps =
      ("Read pending/SST on the hot TServer, not pending bytes alone"
        ∷ "Reduce incoming write rate if possible" ∷ "Confirm disk is not the limiter"
        ∷ "Review compaction rate-limit flags if they differ from default" ∷ []);
}

abbrev pub sst_imbalance_article : Explanation
sst_imbalance_article = record {
  code = code_sst_imbalance;
  what = "SST file bytes are unevenly distributed across TServers.";
  why_it_matters =
      "Tablet counts can look even while one node holds most of the data. That node takes the flushes, compaction, and disk heat.";
  current_cluster = [];
  possible_causes =
      ("recently added TServer still catching up" ∷ "tablet splitting not keeping up"
        ∷ "a few large tablets on one node" ∷ "a TServer was down during placement" ∷ []);
  next_steps =
      ("Compare SST bytes to tablet counts on the hot vs cold node"
        ∷ "Confirm automatic tablet splitting is enabled"
        ∷ "Check whether the load balancer is still running" ∷ []);
}
